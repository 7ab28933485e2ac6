-- ===== src/Examples/Mounts.antt =====
-- Mounting in a guest where `mount` mounts what the last two of its arguments say, and succeeds.
use ovm_next.Mount.Volume.{split_volume, reading_volumes}
use ovm_next.Base.{
  Text, codes, ◌==◌, ==_refl, true, false, ◌++◌, map, List, [], ◌∷◌, if◌then◌else◌, Option, none,
  some, ok, ◌≡◌, refl, ap, subst,
}
use ovm_next.Define.{var_data_disk_uuid}
use ovm_next.Mount.Volume.{cmd_line_mount_to_mounts}
use ovm_next.Mount.Volume.RoundTrip.{Share, mount_of, cmd_line_mount_to_mounts-format_share}
use ovm_next.Storage.Disk.{BlkDev}
use ovm_next.Mount.Guest.{
  Guest, make_mount_cmdline, option_args, mount, mount_each, mount_block_devices, sort_devices,
}
use ovm_next.Mount.Guest.Laws.{is_some, IsGuest}
use ovm_next.Mount.Guest.Devices.{first_device, IsElsewhere, mount_block_devices-carried}

abbrev two_shares : List Share
two_shares =
    record { source = codes "/a,b"; target = codes "/x:y"; read_only = true }
    ∷ record { source = codes "/c"; target = codes "/z"; read_only = false }
    ∷ []

abbrev own_tag : Text → Text
own_tag target = target

cmd_line_mount_to_mounts-format_share_example :
    cmd_line_mount_to_mounts own_tag (codes "/a,b:/x:y,ro" ∷ codes "/c:/z" ∷ [])
    ≡ map (mount_of own_tag) two_shares
cmd_line_mount_to_mounts-format_share_example =
    cmd_line_mount_to_mounts-format_share own_tag two_shares (
      (
        ((λ e. cc), ((λ e. cc), ((λ e. cc), ((λ e. cc), tt)))),
        ((λ e. cc), ((λ e. cc), ((λ e. cc), ((λ e. cc), tt)))),
      ),
      ((((λ e. cc), ((λ e. cc), tt)), ((λ e. cc), ((λ e. cc), tt))), tt),
    )

-- The last two arguments, behind `a` and `b`
abbrev ends_from : Text → Text → List Text → Text × Text
ends_from a b [] = (a, b)
ends_from a b (c ∷ cs) = ends_from b c cs

ends_from-append :
    (a b s t : Text) (front : List Text) → ends_from a b (front ++ s ∷ t ∷ []) ≡ (s, t)
ends_from-append a b s t [] = refl
ends_from-append a b s t (x ∷ front) = ends_from-append b x s t front

-- What is mounted, as pairs of a source and its target, the last one first.
abbrev pub Table : Type 0
Table = List (Text × Text)

abbrev pub carried : Text → Table → Option Text
carried t [] = none
carried t ((source, target) ∷ w) = if target == t then some source else carried t w

abbrev pub some_guest : Guest Table
some_guest = record {
  is_mounted = λ t w. is_some (carried t w);
  mkdir_all = λ p w. (w, true);
  run_mount = λ args w. (ends_from [] [] args ∷ w, true);
}

pub some_guest-IsGuest : IsGuest some_guest carried
some_guest-IsGuest = record {
  listed = λ t w. refl;
  carries = λ front source target w w' ran.
      let same : ends_from [] [] (front ++ source ∷ target ∷ []) ∷ w ≡ w' = ap (λ r. r.0) ran in
      subst (λ v. carried target v ≡ some source) same
        (rw (ends_from-append [] [] source target front, ==_refl target) refl);
  others =
      λ front source target t w other. rw (ends_from-append [] [] source target front, other) refl;
  mkdir = λ t p w. refl;
}

abbrev pub data_device : BlkDev
data_device = record {
  uuid = codes "u";
  fs_type = codes "ext4";
  path = codes "/d";
  mount_to = codes "/mnt/u";
}

abbrev pub var_device : BlkDev
var_device = record {
  uuid = var_data_disk_uuid;
  fs_type = codes "ext4";
  path = codes "/v";
  mount_to = codes "/var";
}

abbrev devices_mounted : Table
devices_mounted = (mount_block_devices some_guest (data_device ∷ var_device ∷ []) []).0

devices-ok :
    mount_block_devices some_guest (data_device ∷ var_device ∷ []) [] ≡ (devices_mounted, ok tt)
unfolding mount_block_devices sort_devices mount_each mount make_mount_cmdline option_args ◌==◌
devices-ok = refl

data_device-IsElsewhere : IsElsewhere (codes "/mnt/u") (data_device ∷ var_device ∷ [])
unfolding ◌==◌
data_device-IsElsewhere = ((λ e. absurd cc), ((λ e. refl), tt))

mount_block_devices-carried_example :
    carried (codes "/mnt/u") devices_mounted
    ≡ first_device (codes "/mnt/u") (data_device ∷ var_device ∷ [])
mount_block_devices-carried_example =
    mount_block_devices-carried some_guest carried some_guest-IsGuest
      (data_device ∷ var_device ∷ []) [] devices_mounted (codes "/mnt/u") data_device-IsElsewhere
      devices-ok

data_device_first :
    first_device (codes "/mnt/u") (data_device ∷ var_device ∷ []) ≡ some (codes "UUID=u")
unfolding ◌==◌
data_device_first = refl

split_volume_tests :
    (split_volume (codes "/a:/b,rw,ro") ≡ (codes "/a", codes "/b", true))
    × (split_volume (codes "/a,ro") ≡ (codes "/a", codes "/a", true))
    × (split_volume (codes "/a,b:/c:d,ro,rw") ≡ (codes "/a,b", codes "/c:d", false))
unfolding reading_volumes
split_volume_tests = (refl, refl, refl)
