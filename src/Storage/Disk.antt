-- ===== src/Storage/Disk.antt =====
-- The operations on one raw disk that var disk and external disks share.
use ovm_next.Base.{
  Text, codes, ◌==◌, has_prefix, if◌then◌else◌, Bool, true, false, not, ◌&&◌, List, [], ◌∷◌, ◌++◌,
  Option, none, some,
}
use ovm_next.FilePath.{is_abs, abs, clean}
use ovm_next.Define.{var_disk_mount_point, var_data_disk_uuid, xattr_disk_version_key}
use ovm_next.Storage.Step.{Step, DiskError, pure, fail, try, ◌>>=◌}
use ovm_next.Storage.Host.{DiskHost, ProbeInfo}

-- `define.BlkDev`
pub record BlkDev : Type 0 where
  pub uuid : Text
  pub fs_type : Text
  pub path : Text
  pub mount_to : Text

-- `diskVersionXattrs`
unfoldable pub disk_version_xattrs : Text → List (Text × Text)
disk_version_xattrs version = if version == [] then [] else (xattr_disk_version_key, version) ∷ []

module _ {W : Type 0} (host : DiskHost W) where
  -- `filepath.Abs(filepath.Clean(path))`
  abbrev pub full : Text → Text
  full path = abs host.cwd (clean path)

  -- `absDiskPath`
  unfoldable pub abs_disk_path : Text → Step W Text
  abs_disk_path path = if path == [] then fail DiskError.empty_path else pure (full path)

  -- `xattrManager.SetXattr`
  unfoldable pub set_xattr : Text → Text → Text → Bool → Step W (Unit {0})
  set_xattr path namespace value overwrite w =
      (if namespace == []
          then fail DiskError.xattr_key_empty
          else if not (has_prefix namespace (codes "user.vm."))
          then fail DiskError.xattr_key_foreign
          else if value == []
          then fail DiskError.xattr_value_empty
          else if not (host.get_xattr (full path) namespace w == []) && not overwrite
          then pure tt
          else try DiskError.xattr_failed (host.set_xattr (full path) namespace value))
        w

  -- `applyDiskXattrs`
  unfoldable pub apply_disk_xattrs : Text → List (Text × Text) → Step W (Unit {0})
  apply_disk_xattrs path [] = pure tt
  apply_disk_xattrs path ((key, val) ∷ xattrs) =
      set_xattr path key val true >>= λ _. apply_disk_xattrs path xattrs

  -- `generateRAWDisk`
  unfoldable pub generate_raw_disk : Text → Text → List (Text × Text) → Step W (Unit {0})
  generate_raw_disk path given_uuid xattrs = do
    _ ← try DiskError.extract_failed (host.extract (full path))
    _ ← try DiskError.uuid_failed (host.set_uuid (abs host.cwd (full path)) given_uuid)
    apply_disk_xattrs (full path) xattrs

  -- `recreateRAWDisk`
  unfoldable pub recreate_raw_disk : Text → Text → List (Text × Text) → Step W (Unit {0})
  recreate_raw_disk path uuid xattrs = do
    _ ← try DiskError.remove_failed (host.remove path)
    generate_raw_disk path uuid xattrs

  -- `needsDiskRegeneration`: whether to regenerate, and whether the disk has a version.
  unfoldable pub needs_disk_regeneration : Text → Text → W → Bool × Bool
  needs_disk_regeneration path expected w =
      let stored = host.get_xattr (full path) xattr_disk_version_key w in
      if expected == []
      then (false, false)
      else if stored == []
      then (false, false)
      else (not (stored == expected), true)

  -- The mount point that `Inspect` proposes.
  abbrev pub default_mount : Text → Text
  default_mount uuid =
      if uuid == var_data_disk_uuid then var_disk_mount_point else codes "/mnt/" ++ uuid

  abbrev described : Text → Option ProbeInfo → Step W BlkDev
  described path none = fail DiskError.inspect_failed
  described path (some info) = pure record {
    uuid = info.uuid;
    fs_type = info.fs_type;
    path = path;
    mount_to = default_mount info.uuid;
  }

  -- `RawDiskManager.Inspect`
  unfoldable pub inspect : Text → Step W BlkDev
  inspect path w = described (abs host.cwd path) (host.probe (abs host.cwd path) w) w

  -- `addRAWDiskToBlkList`: the block devices with the new one behind them.
  unfoldable pub add_raw_disk_to_blk_list : Text → Text → List BlkDev → Step W (List BlkDev)
  add_raw_disk_to_blk_list path mount_to blk_devs = do
    info ← inspect (full path)
    pure (blk_devs ++ (if mount_to == [] then info else record info { mount_to = mount_to }) ∷ [])

unfoldable pub writing_disks : Unit {0}
unfolding ◌>>=◌ abs_disk_path set_xattr apply_disk_xattrs generate_raw_disk recreate_raw_disk
    needs_disk_regeneration inspect add_raw_disk_to_blk_list disk_version_xattrs ◌==◌ has_prefix abs
    clean is_abs
writing_disks = tt
