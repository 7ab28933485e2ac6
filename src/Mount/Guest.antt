-- ===== src/Mount/Guest.antt =====
-- cmd/guest-agent/pkg/service/mount.go: the command lines of `mount` in the guest, and which mounts
-- are made in which order. The guest's kernel is a parameter: a world `W`, the test `IsMounted`, and
-- what `os.MkdirAll` and the program `mount` do to the world, with whether they succeed.
pub mod Laws
pub mod Devices
use ovm_next.Base.{
  Text, codes, ◌==◌, Bool, true, false, not, ◌&&◌, List, [], ◌∷◌, ◌++◌, map, is_empty,
  if◌then◌else◌, Option, none, some, Result, ok, err, ◌>>=◌,
}
use ovm_next.Define.{var_data_disk_uuid}
use ovm_next.Mount.{Mount, virtiofs}
use ovm_next.Storage.Disk.{BlkDev}

pub data Action : Type 0 where
  uuid_action virtio_fs_action pseudo_fs_action : Action

pub data MountError : Type 0 where
  empty_uuid empty_type not_virtiofs empty_tag mkdir_failed mount_failed no_var_disk : MountError

-- The options before the action's own.
unfoldable pub option_args : Mount → List Text
option_args mnt =
    (if mnt.opts == [] then [] else codes "-o" ∷ mnt.opts ∷ [])
    ++ (if mnt.read_only then codes "-o" ∷ codes "ro" ∷ [] else [])

-- `makeMountCmdline`
unfoldable pub make_mount_cmdline : Mount → Action → Result MountError (List Text)
make_mount_cmdline mnt Action.uuid_action =
    if mnt.uuid == []
    then err MountError.empty_uuid
    else if mnt.kind == []
    then err MountError.empty_type
    else ok (
        option_args mnt
        ++ (if mnt.kind == codes "ext4" then codes "-o" ∷ codes "data=ordered" ∷ [] else [])
        ++ codes "-t" ∷ mnt.kind ∷ (codes "UUID=" ++ mnt.uuid) ∷ mnt.target ∷ [])
make_mount_cmdline mnt Action.virtio_fs_action =
    if not (mnt.kind == virtiofs)
    then err MountError.not_virtiofs
    else if mnt.tag == []
    then err MountError.empty_tag
    else ok (option_args mnt ++ codes "-t" ∷ mnt.kind ∷ mnt.tag ∷ mnt.target ∷ [])
make_mount_cmdline mnt Action.pseudo_fs_action =
    if mnt.kind == []
    then err MountError.empty_type
    else ok (option_args mnt ++ codes "-t" ∷ mnt.kind ∷ mnt.kind ∷ mnt.target ∷ [])

pub record Guest (W : Type 0) : Type 0 where
  pub is_mounted : Text → W → Bool
  pub mkdir_all : Text → W → W × Bool
  pub run_mount : List Text → W → W × Bool

abbrev pub pseudo_mount : Text → Text → Text → Mount
pseudo_mount target opts kind = record {
  read_only = false;
  source = [];
  tag = [];
  target = target;
  kind = kind;
  opts = opts;
  uuid = [];
}

abbrev pub plain : Text
plain = codes "rw,nosuid,nodev,noexec,relatime"

-- The table of `MountAllPseudoMnt`
abbrev pub pseudo_mnts : List Mount
pseudo_mnts =
    pseudo_mount (codes "/mnt") [] (codes "tmpfs")
    ∷ pseudo_mount (codes "/tmp") [] (codes "tmpfs")
    ∷ pseudo_mount (codes "/run") [] (codes "tmpfs")
    ∷ pseudo_mount (codes "/var") [] (codes "tmpfs")
    ∷ pseudo_mount (codes "/dev") (codes "rw,nosuid,noexec,relatime") (codes "devtmpfs")
    ∷ pseudo_mount (codes "/dev/pts") (codes "rw,nosuid,noexec,relatime,mode=600,ptmxmode=000")
        (codes "devpts")
    ∷ pseudo_mount (codes "/dev/shm") [] (codes "tmpfs")
    ∷ pseudo_mount (codes "/proc") plain (codes "proc")
    ∷ pseudo_mount (codes "/proc/sys/fs/binfmt_misc") [] (codes "binfmt_misc")
    ∷ pseudo_mount (codes "/sys") plain (codes "sysfs")
    ∷ pseudo_mount (codes "/sys/fs/fuse/connections") plain (codes "fusectl")
    ∷ pseudo_mount (codes "/sys/fs/cgroup") plain (codes "cgroup2")
    ∷ pseudo_mount (codes "/sys/fs/bpf") (codes "rw,nosuid,nodev,noexec,relatime,mode=700")
        (codes "bpf")
    ∷ pseudo_mount (codes "/sys/kernel/config") plain (codes "configfs")
    ∷ []

-- The mount that `MountVirtiofs` makes of one that the host sent.
abbrev pub shared : Mount → Mount
shared m = record {
  read_only = m.read_only;
  source = [];
  tag = m.tag;
  target = m.target;
  kind = m.kind;
  opts = [];
  uuid = [];
}

-- The mount that `MountBlockDevices` makes of a block device.
abbrev pub device_mount : BlkDev → Mount
device_mount disk = record {
  read_only = false;
  source = disk.path;
  tag = [];
  target = disk.mount_to;
  kind = disk.fs_type;
  opts = codes "rw,discard";
  uuid = disk.uuid;
}

abbrev pub is_var : BlkDev → Bool
is_var disk = disk.uuid == var_data_disk_uuid

-- The loop of `MountBlockDevices`: the var disk, which is the last one of that uuid, and the others.
unfoldable pub sort_devices : Option Mount → List Mount → List BlkDev → Option Mount × List Mount
sort_devices var external [] = (var, external)
sort_devices var external (disk ∷ disks) =
    sort_devices (if is_var disk then some (device_mount disk) else var)
      (if is_var disk then external else external ++ device_mount disk ∷ []) disks

module _ {W : Type 0} (guest : Guest W) where
  abbrev pub then_mount : List Text → W × Bool → W × Result MountError (Unit {0})
  then_mount args (w, false) = (w, err MountError.mount_failed)
  then_mount args (w, true) = (w, ok tt)

  abbrev pub run_line : Result MountError (List Text) → W → W × Result MountError (Unit {0})
  run_line (err e) w = (w, err e)
  run_line (ok args) w = then_mount args (guest.run_mount args w)

  abbrev pub then_line : Mount → Action → W × Bool → W × Result MountError (Unit {0})
  then_line mnt action (w, false) = (w, err MountError.mkdir_failed)
  then_line mnt action (w, true) = run_line (make_mount_cmdline mnt action) w

  -- `Mnt.Mount`
  unfoldable pub mount : Mount → Action → W → W × Result MountError (Unit {0})
  mount mnt action w = then_line mnt action (guest.mkdir_all mnt.target w)

  abbrev pub then_rest :
      W × Result MountError (Unit {0})
      → (W → W × Result MountError (Unit {0}))
      → W × Result MountError (Unit {0})
  then_rest (w, err e) rest = (w, err e)
  then_rest (w, ok _) rest = rest w

  -- The loop that the three functions below share: a target that is mounted is skipped.
  unfoldable pub mount_each : Action → List Mount → W → W × Result MountError (Unit {0})
  mount_each action [] w = (w, ok tt)
  mount_each action (mnt ∷ mnts) w =
      then_rest (if guest.is_mounted mnt.target w then (w, ok tt) else mount mnt action w)
        (mount_each action mnts)

  -- `MountAllPseudoMnt`
  unfoldable pub mount_all_pseudo_mnt : W → W × Result MountError (Unit {0})
  mount_all_pseudo_mnt = mount_each Action.pseudo_fs_action pseudo_mnts

  -- `MountVirtiofs`
  unfoldable pub mount_virtiofs : List Mount → W → W × Result MountError (Unit {0})
  mount_virtiofs mounts = mount_each Action.virtio_fs_action (map shared mounts)

  abbrev pub mount_sorted : Option Mount × List Mount → W → W × Result MountError (Unit {0})
  mount_sorted (none, external) w = (w, err MountError.no_var_disk)
  mount_sorted (some var, external) w =
      then_rest (mount var Action.uuid_action w) (mount_each Action.uuid_action external)

  -- `mountBlockDevice` and `MountBlockDevices`
  unfoldable pub mount_block_devices : List BlkDev → W → W × Result MountError (Unit {0})
  mount_block_devices blk_devs w =
      if is_empty blk_devs then (w, ok tt) else mount_sorted (sort_devices none [] blk_devs) w
