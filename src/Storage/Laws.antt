-- ===== src/Storage/Laws.antt =====
-- What writing a raw disk leaves on the host.
use ovm_next.Base.{
  Text, ◌==◌, ==_iff, has_prefix, if◌then◌else◌, Bool, true, false, not, [], ◌∷◌, Option, none,
  some, ok, err, ◌≡◌, ◌≢◌, refl, sym, ap, ◌∙◌, subst, Bool-cases, inl, inr,
}
use ovm_next.FilePath.{is_abs, abs, clean}
use ovm_next.Define.{xattr_disk_version_key}
use ovm_next.Storage.Step.{DiskError, pure, try, >>=-eq-ok, try-eq-ok}
use ovm_next.Storage.Host.{DiskHost, IsDiskHost, Image, Frame}
use ovm_next.Storage.Disk.{
  full, set_xattr, apply_disk_xattrs, disk_version_xattrs, generate_raw_disk, recreate_raw_disk,
  inspect, needs_disk_regeneration, default_mount,
}

-- An absolute path that is written in its shortest form.
abbrev pub IsCanonical : Text → Type 0
IsCanonical p = (is_abs p ≡ true) × (clean p ≡ p)

pub abs_of_IsCanonical : (cwd p : Text) → IsCanonical p → abs cwd p ≡ p
unfolding abs
abs_of_IsCanonical cwd p (rooted, short) = rw (rooted, short) refl

-- What `needsDiskRegeneration` returns: by whether the expected version is empty, whether the
-- stored one is, and whether they are the same.
abbrev pub version_state : Bool → Bool → Bool → Bool × Bool
version_state true stored same = (false, false)
version_state false true same = (false, false)
version_state false false same = (not same, true)

if_version_state :
    (b c e : Bool)
    → (if◌then◌else◌ {A = Bool × Bool} b
        (false, false)
        (if◌then◌else◌ {A = Bool × Bool} c (false, false) (not e, true)))
      ≡ version_state b c e
if_version_state true c e = refl
if_version_state false true e = refl
if_version_state false false e = refl

-- The disk at `p` has the uuid `u` and, if `v` is not empty, the version `v`; no other disk changed.
pub record IsWritten {W : Type 0} (image_at : Text → W → Option Image) (p u v : Text) (w w' : W)
    : Type 0 where
  pub image : (d : Image) × (image_at p w' ≡ some d) × (d.uuid ≡ u) × (v ≢ [] → d.version ≡ v)
  pub frame : Frame image_at p w w'

module _ {W : Type 0} (host : DiskHost W) (image_at : Text → W → Option Image)
    (laws : IsDiskHost host image_at) (p : Text) (canonical : IsCanonical p) where
  pub full_canonical : full host p ≡ p
  full_canonical = ap (abs host.cwd) canonical.1 ∙ abs_of_IsCanonical host.cwd p canonical

  pub abs_canonical : abs host.cwd p ≡ p
  abs_canonical = abs_of_IsCanonical host.cwd p canonical

  Frame-trans :
      {w w' w'' : W} → Frame image_at p w w' → Frame image_at p w' w'' → Frame image_at p w w''
  Frame-trans h k q other = k q other ∙ h q other

  set_xattr_version :
      (v : Text) (w : W)
      → (v == []) ≡ false
      → set_xattr host p xattr_disk_version_key v true w
        ≡ try DiskError.xattr_failed (host.set_xattr p xattr_disk_version_key v) w
  unfolding set_xattr has_prefix ◌==◌
  set_xattr_version v w given =
      elim (Bool-cases (host.get_xattr (full host p) xattr_disk_version_key w == [])) [
        | inl h ↦ rw (given, h, full_canonical) refl
        | inr h ↦ rw (given, h, full_canonical) refl
      ]

  set_version :
      (v : Text) (d : Image) (w w' : W)
      → image_at p w ≡ some d
      → (v == []) ≡ false
      → set_xattr host p xattr_disk_version_key v true w ≡ (w', ok tt)
      → IsWritten image_at p d.uuid v w w'
  set_version v d w w' e given h =
      let (at, others) =
        laws.xattr_set p v w w' d
          (try-eq-ok DiskError.xattr_failed (host.set_xattr p xattr_disk_version_key v) w
            (sym (set_xattr_version v w given) ∙ h))
          e in
      record { image = (record d { version = v }, at, refl, λ _. refl); frame = others }

  apply_none : (w w' : W) → apply_disk_xattrs host p [] w ≡ (w', ok tt) → w ≡ w'
  unfolding apply_disk_xattrs
  apply_none w w' h = cc

  apply_one :
      (key val : Text) (w w' : W)
      → apply_disk_xattrs host p ((key, val) ∷ []) w ≡ (w', ok tt)
      → set_xattr host p key val true w ≡ (w', ok tt)
  unfolding apply_disk_xattrs
  apply_one key val w w' h =
      let (_, w1, first, rest) = >>=-eq-ok (set_xattr host p key val true) (λ _. pure tt) w h in cc

  apply_version :
      (v : Text) (d : Image) (w w' : W)
      → image_at p w ≡ some d
      → apply_disk_xattrs host p (disk_version_xattrs v) w ≡ (w', ok tt)
      → IsWritten image_at p d.uuid v w w'
  unfolding disk_version_xattrs
  apply_version v d w w' e h = elim (Bool-cases (v == [])) [
    | inl none_given ↦
        subst (IsWritten image_at p d.uuid v w) (apply_none w w' (rw none_given at h)) record {
          image = (d, e, refl, λ given. absurd (given ((==_iff v []).0 none_given)));
          frame = λ q other. refl;
        }
    | inr given ↦
        set_version v d w w' e given (apply_one xattr_disk_version_key v w w' (rw given at h))
  ]

  pub generate_raw_disk-IsWritten :
      (u v : Text) (w w' : W)
      → generate_raw_disk host p u (disk_version_xattrs v) w ≡ (w', ok tt)
      → IsWritten image_at p u v w w'
  unfolding generate_raw_disk
  generate_raw_disk-IsWritten u v w w' e =
      let extracting = host.extract (full host p) in
      let naming = host.set_uuid (abs host.cwd (full host p)) u in
      let (_, w1, extract, e1) = >>=-eq-ok (try DiskError.extract_failed extracting) _ w e in
      let (_, w2, set, e2) = >>=-eq-ok (try DiskError.uuid_failed naming) _ w1 e1 in
      let done = try-eq-ok DiskError.extract_failed extracting w extract in
      let named = try-eq-ok DiskError.uuid_failed naming w1 set in
      let ((d, at1), f1) = laws.extracted p w w1 (rw full_canonical at done) in
      let (at2, f2) = laws.uuid_set p u w1 w2 d (rw (full_canonical, abs_canonical) at named) at1 in
      let written = apply_version v (record d { uuid = u }) w2 w' at2 (rw full_canonical at e2) in
      record { image = written.image; frame = Frame-trans f1 (Frame-trans f2 written.frame) }

  pub recreate_raw_disk-IsWritten :
      (u v : Text) (w w' : W)
      → recreate_raw_disk host p u (disk_version_xattrs v) w ≡ (w', ok tt)
      → IsWritten image_at p u v w w'
  unfolding recreate_raw_disk
  recreate_raw_disk-IsWritten u v w w' e =
      let (_, w1, gone, e1) = >>=-eq-ok (try DiskError.remove_failed (host.remove p)) _ w e in
      let cleared =
        laws.removed p w w1 (try-eq-ok DiskError.remove_failed (host.remove p) w gone) in
      let written = generate_raw_disk-IsWritten u v w1 w' e1 in
      record { image = written.image; frame = Frame-trans cleared written.frame }

  pub inspect_image :
      (d : Image) (w : W)
      → image_at p w ≡ some d
      → inspect host p w ≡ (
        w,
        ok (record {
          uuid = d.uuid;
          fs_type = d.fs_type;
          path = p;
          mount_to = default_mount host d.uuid;
        }),
      )
  unfolding inspect
  inspect_image d w e = rw (abs_canonical, laws.probe_image p w d e) refl

  pub inspect-none :
      (w : W) → image_at p w ≡ none → inspect host p w ≡ (w, err DiskError.inspect_failed)
  unfolding inspect
  inspect-none w e = rw (abs_canonical, laws.probe_none p w e) refl

  pub needs_disk_regeneration_image :
      (d : Image) (v : Text) (w : W)
      → image_at p w ≡ some d
      → needs_disk_regeneration host p v w
        ≡ version_state (v == []) (d.version == []) (d.version == v)
  unfolding needs_disk_regeneration
  needs_disk_regeneration_image d v w e =
      rw (full_canonical, laws.get_image p w d e)
        (if_version_state (v == []) (d.version == []) (d.version == v))
