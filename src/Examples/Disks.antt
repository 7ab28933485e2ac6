-- ===== src/Examples/Disks.antt =====
-- Disks, on a host whose only files are raw disks and whose calls succeed.
use ovm_next.Base.{
  Text, codes, ◌==◌, ==_iff, ==_refl, Bool, true, false, [], if◌then◌else◌, Option, none, some, ok,
  [], ◌≡◌, ◌≢◌, refl, ap, ◌∙◌, subst, arith,
}
use ovm_next.FilePath.{is_abs, clean}
use ovm_next.Define.{var_data_disk_uuid}
use ovm_next.Config.{RawDisk}
use ovm_next.Storage.Host.{DiskHost, IsDiskHost, Image, Stat, Frame, ProbeInfo}
use ovm_next.Storage.Disk.{writing_disks}
use ovm_next.Storage.Var.{reconcile_existing_var, reconcile_var_raw_disk}
use ovm_next.Storage.External.{handle_existing}
use ovm_next.Storage.Laws.{IsCanonical, IsWritten}
use ovm_next.Storage.VarLaws.{reconcile_var_raw_disk-IsWritten}
use ovm_next.Storage.ExternalLaws.{adopted, IsAdopted, handle_existing-keeps_uuid}

abbrev pub Files : Type 0
Files = Text → Option Image

abbrev put : Text → Option Image → Files → Files
put p content w q = if q == p then content else w q

put_same : (p : Text) (content : Option Image) (w : Files) → put p content w p ≡ content
put_same p content w = rw (==_refl p) refl

put_other :
    (p : Text) (content : Option Image) (w : Files) → Frame (λ q v. v q) p w (put p content w)
put_other p content w q other = rw (different q p other) refl
  where
    different : (q p : Text) → q ≢ p → (q == p) ≡ false
    different q p other = ground (arith, ==_iff q p)

abbrev stat_of : Option Image → Stat
stat_of none = Stat.missing
stat_of (some d) = Stat.present

abbrev info_of : Option Image → Option ProbeInfo
info_of none = none
info_of (some d) = some (record { uuid = d.uuid; fs_type = d.fs_type })

abbrev version_of : Option Image → Text
version_of none = []
version_of (some d) = d.version

abbrev with_version : Text → Option Image → Option Image
with_version v none = none
with_version v (some d) = some (record d { version = v })

abbrev with_uuid : Text → Option Image → Option Image
with_uuid u none = none
with_uuid u (some d) = some (record d { uuid = u })

abbrev embedded : Image
embedded = record { uuid = codes "e"; fs_type = codes "ext4"; version = [] }

abbrev pub disk_host : DiskHost Files
disk_host = record {
  cwd = codes "/";
  stat = λ p w. stat_of (w p);
  probe = λ p w. info_of (w p);
  get_xattr = λ p key w. version_of (w p);
  set_xattr = λ p key v w. (put p (with_version v (w p)) w, true);
  extract = λ p w. (put p (some embedded) w, true);
  set_uuid = λ p u w. (put p (with_uuid u (w p)) w, true);
  remove = λ p w. (put p none w, true);
  new_uuid = λ w. (w, codes "n");
}

abbrev image_at : Text → Files → Option Image
image_at p w = w p

written :
    (p : Text) (content : Option Image) (d : Image) (w w' : Files)
    → ◌≡◌ {A = Files × Bool} (put p content w, true) (w', true)
    → content ≡ some d
    → (image_at p w' ≡ some d) × Frame image_at p w w'
written p content d w w' e c =
    let same : put p content w ≡ w' = ap (λ r. r.0) e in
    subst (λ v. (image_at p v ≡ some d) × Frame image_at p w v) same
      (put_same p content w ∙ c, put_other p content w)

disk_host-IsDiskHost : IsDiskHost disk_host image_at
disk_host-IsDiskHost = record {
  probe_image = λ p w d at. ap info_of at;
  probe_none = λ p w at. ap info_of at;
  get_image = λ p w d at. ap version_of at;
  extracted = λ p w w' e.
      let (at, frame) = written p (some embedded) embedded w w' e refl in ((embedded, at), frame);
  uuid_set = λ p u w w' d e at.
      written p (with_uuid u (w p)) (record d { uuid = u }) w w' e (ap (with_uuid u) at);
  xattr_set = λ p v w w' d e at.
      written p (with_version v (w p)) (record d { version = v }) w w' e (ap (with_version v) at);
  removed = λ p w w' e. subst (λ v. Frame image_at p w v) (ap (λ r. r.0) e) (put_other p none w);
  new_uuid_image = λ p w. refl;
}

abbrev pub disk_path : Text
disk_path = codes "/d"

disk_path-IsCanonical : IsCanonical disk_path
unfolding is_abs clean
disk_path-IsCanonical = (refl, refl)

abbrev pub no_files : Files
no_files p = none

abbrev old_disk : Image
old_disk = record { uuid = codes "o"; fs_type = codes "ext4"; version = codes "v1" }

abbrev old_files : Files
old_files = put disk_path (some old_disk) no_files

abbrev after_var : Files
after_var = (reconcile_var_raw_disk disk_host disk_path (codes "v1") old_files).0

after_var-ok :
    reconcile_var_raw_disk disk_host disk_path (codes "v1") old_files ≡ (after_var, ok tt)
unfolding reconcile_var_raw_disk reconcile_existing_var writing_disks
after_var-ok = refl

reconcile_var_raw_disk-IsWritten_example :
    IsWritten image_at disk_path var_data_disk_uuid (codes "v1") old_files after_var
reconcile_var_raw_disk-IsWritten_example =
    reconcile_var_raw_disk-IsWritten disk_host image_at disk_host-IsDiskHost disk_path
      disk_path-IsCanonical (codes "v1") old_files after_var after_var-ok

abbrev new_spec : RawDisk
new_spec = record { raw_disk_path = disk_path; uuid = codes "u"; mnt = []; version = codes "v2" }

abbrev after_update : Files
after_update = (handle_existing disk_host new_spec old_files).0

abbrev old_adopted : RawDisk
old_adopted =
    adopted disk_host image_at disk_host-IsDiskHost new_spec disk_path-IsCanonical old_disk

after_update-ok : handle_existing disk_host new_spec old_files ≡ (after_update, ok old_adopted)
unfolding handle_existing writing_disks
after_update-ok = refl

handle_existing-keeps_uuid_example :
    IsAdopted disk_host image_at disk_host-IsDiskHost new_spec disk_path-IsCanonical old_disk
      old_files after_update old_adopted
handle_existing-keeps_uuid_example =
    handle_existing-keeps_uuid disk_host image_at disk_host-IsDiskHost new_spec
      disk_path-IsCanonical old_disk old_files after_update old_adopted
      (put_same disk_path (some old_disk) no_files) after_update-ok
