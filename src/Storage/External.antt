-- ===== src/Storage/External.antt =====
-- The disks that the user provides: `withUserProvidedRawDisk` and what it calls.
use ovm_next.Base.{Text, codes, ◌==◌, if◌then◌else◌, ◌&&◌, List, [], ◌∷◌, ◌++◌}
use ovm_next.Config.{RawDisk}
use ovm_next.Storage.Step.{Step, DiskError, pure, fail, ◌>>=◌}
use ovm_next.Storage.Host.{DiskHost, Stat}
use ovm_next.Storage.Disk.{
  BlkDev, abs_disk_path, disk_version_xattrs, generate_raw_disk, recreate_raw_disk,
  needs_disk_regeneration, inspect, add_raw_disk_to_blk_list,
}

module _ {W : Type 0} (host : DiskHost W) where
  -- `handleExistingUserProvidedRawDisk`; it returns the spec as it leaves it.
  unfoldable pub handle_existing : RawDisk → Step W RawDisk
  handle_existing spec = do
    info ← inspect host spec.raw_disk_path
    λ w.
        let kept = record spec {
          uuid = info.uuid;
          mnt = if spec.mnt == [] then info.mount_to else spec.mnt;
        } in
        let (should_regenerate, has_version_xattr) =
          needs_disk_regeneration host spec.raw_disk_path spec.version w in
        if has_version_xattr && should_regenerate
        then (recreate_raw_disk host spec.raw_disk_path info.uuid (disk_version_xattrs spec.version)
              >>= λ _. pure kept)
            w
        else pure kept w

  -- `if diskSpec.UUID == "" { diskSpec.UUID = uuid.NewString() }`
  abbrev pub draw_uuid : Text → Step W Text
  draw_uuid uuid w =
      if uuid == [] then (let (w', drawn) = host.new_uuid w in pure drawn w') else pure uuid w

  -- `createUserProvidedRawDisk`
  unfoldable pub create_disk : RawDisk → Step W RawDisk
  create_disk spec = do
    uuid ← draw_uuid spec.uuid
    _ ← generate_raw_disk host spec.raw_disk_path uuid (disk_version_xattrs spec.version)
    pure (record spec {
      uuid = uuid;
      mnt = if spec.mnt == [] then codes "/mnt/" ++ uuid else spec.mnt;
    })

  -- `reconcileUserProvidedRawDisk` behind its call of `os.Stat`
  abbrev reconcile : Stat → RawDisk → Step W RawDisk
  reconcile Stat.present spec = handle_existing spec
  reconcile Stat.unreadable spec = fail DiskError.stat_failed
  reconcile Stat.missing spec = create_disk spec

  -- `reconcileUserProvidedRawDisk`
  unfoldable pub reconcile_disk : RawDisk → Step W RawDisk
  reconcile_disk spec w = reconcile (host.stat spec.raw_disk_path w) spec w

  -- `withUserProvidedRawDisk`
  unfoldable pub with_disks : List RawDisk → List BlkDev → Step W (List BlkDev)
  with_disks [] blk_devs = pure blk_devs
  with_disks (spec ∷ specs) blk_devs = do
    path ← abs_disk_path host spec.raw_disk_path
    reconciled ← reconcile_disk (record spec { raw_disk_path = path })
    added ← add_raw_disk_to_blk_list host reconciled.raw_disk_path reconciled.mnt blk_devs
    with_disks specs added
