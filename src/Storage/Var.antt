-- ===== src/Storage/Var.antt =====
-- The disk of the guest's /var: `withVarDisk` and `reconcileVarRAWDisk`.
use ovm_next.Base.{Text, ◌==◌, if◌then◌else◌, not, ◌||◌, List}
use ovm_next.Define.{var_data_disk_uuid}
use ovm_next.Config.{RawDisk}
use ovm_next.Storage.Step.{Step, DiskError, pure, fail, ◌>>=◌}
use ovm_next.Storage.Host.{DiskHost, Stat}
use ovm_next.Storage.Disk.{
  BlkDev, abs_disk_path, disk_version_xattrs, generate_raw_disk, recreate_raw_disk,
  needs_disk_regeneration, inspect, add_raw_disk_to_blk_list,
}

module _ {W : Type 0} (host : DiskHost W) where
  -- `reconcileVarRAWDisk` from its call of `Inspect` on; `diskSpec` is passed by its fields.
  unfoldable pub reconcile_existing_var : Text → Text → Step W (Unit {0})
  reconcile_existing_var path version = do
    info ← inspect host path
    if not (info.uuid == var_data_disk_uuid)
        then recreate_raw_disk host path var_data_disk_uuid (disk_version_xattrs version)
        else λ w.
            let (should_regenerate, has_version_xattr) =
              needs_disk_regeneration host path version w in
            if not has_version_xattr || should_regenerate
            then recreate_raw_disk host path var_data_disk_uuid (disk_version_xattrs version) w
            else pure tt w

  -- `reconcileVarRAWDisk` behind its call of `os.Stat`
  abbrev reconcile_var : Stat → Text → Text → Step W (Unit {0})
  reconcile_var Stat.missing path version =
      generate_raw_disk host path var_data_disk_uuid (disk_version_xattrs version)
  reconcile_var Stat.unreadable path version = fail DiskError.stat_failed
  reconcile_var Stat.present path version = reconcile_existing_var path version

  -- `reconcileVarRAWDisk`
  unfoldable pub reconcile_var_raw_disk : Text → Text → Step W (Unit {0})
  reconcile_var_raw_disk path version w = reconcile_var (host.stat path w) path version w

  -- `withVarDisk`
  unfoldable pub with_var_disk : RawDisk → List BlkDev → Step W (List BlkDev)
  with_var_disk spec blk_devs = do
    path ← abs_disk_path host spec.raw_disk_path
    _ ← reconcile_var_raw_disk path spec.version
    add_raw_disk_to_blk_list host path spec.mnt blk_devs
