-- ===== src/Build/Rootfs.antt =====
-- The root file system, the mounts and the disks of a machine: `withBuiltInAlpineRootfs`,
-- `withUserProvidedRootfs`, `withMountUserHome`, `withUserProvidedMounts`, and the storage steps.
use ovm_next.Base.{Text, codes, ◌==◌, if◌then◌else◌, List, [], ◌∷◌, ◌++◌, is_empty}
use ovm_next.Base.Action.{◌>>=◌, pure, fail, try, lift}
use ovm_next.FilePath.{join}
use ovm_next.Config.{RawDisk}
use ovm_next.Mount.Volume.{with_user_provided_mounts}
use ovm_next.Storage.Disk.{full}
use ovm_next.Storage.Var.{with_var_disk}
use ovm_next.Storage.External.{with_disks}
use ovm_next.Build.Paths.{get_rootfs_dir}
use ovm_next.Build.Spec.{Machine}
use ovm_next.Build.Host.{BuildHost, BuildError, Build, make_dir, known}

module _ {W : Type 0} (host : BuildHost W) where
  -- `withUserProvidedRootfs`
  unfoldable pub with_user_provided_rootfs : Text → Machine → Build W Machine
  with_user_provided_rootfs path m w =
      (if path == []
          then fail BuildError.rootfs_empty
          else if host.lstat (join (full host.disks path ∷ codes "bin" ∷ codes "sh" ∷ [])) w
          then pure (record m { root_fs = full host.disks path })
          else fail BuildError.no_shell)
        w

  -- `withBuiltInAlpineRootfs`
  unfoldable pub with_built_in_rootfs : Machine → Build W Machine
  with_built_in_rootfs m = if m.workspace_dir == [] then fail BuildError.workspace_empty else do
    _ ← make_dir host (get_rootfs_dir m.workspace_dir) 0o755
    _ ← try BuildError.extract_failed (host.extract_rootfs (get_rootfs_dir m.workspace_dir))
    with_user_provided_rootfs (get_rootfs_dir m.workspace_dir) m

  -- `withUserProvidedMounts` on the machine; no mounts change nothing.
  unfoldable pub set_mounts : List Text → Machine → Machine
  set_mounts dirs m =
      if is_empty dirs
      then m
      else record m { mounts = with_user_provided_mounts host.tag_of host.disks.cwd dirs m.mounts }

  -- `fmt.Sprintf("%s:%s", homeDir, homeDir)`
  abbrev pub home_volume : Text → Text
  home_volume home = home ++ codes ":" ++ home

  -- `withMountUserHome`
  unfoldable pub with_mount_user_home : Machine → Build W Machine
  with_mount_user_home m = do
    home ← known BuildError.no_home host.home
    pure (set_mounts (home_volume home ∷ []) m)

  -- `withVarDisk` and `withUserProvidedRawDisk` on the machine
  unfoldable pub set_var_disk : RawDisk → Machine → Build W Machine
  set_var_disk spec m = do
    devs ← lift BuildError.disk (with_var_disk host.disks spec m.blk_devs)
    pure (record m { blk_devs = devs })

  unfoldable pub set_disks : List RawDisk → Machine → Build W Machine
  set_disks specs m = do
    devs ← lift BuildError.disk (with_disks host.disks specs m.blk_devs)
    pure (record m { blk_devs = devs })
