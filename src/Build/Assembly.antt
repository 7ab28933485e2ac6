-- ===== src/Build/Assembly.antt =====
-- `buildMachine` of pkg/librevm/machine.go: the order of the steps, and the cleanup.
use ovm_next.Base.{
  Text, codes, ◌==◌, has_prefix, if◌then◌else◌, ◌&&◌, true, false, List, [], ◌++◌, Result, ok, err,
  some, to_u8,
}
use ovm_next.Base.Action.{Action, ◌>>=◌, pure, of_result}
use ovm_next.FilePath.{is_abs, abs, clean, join, dir}
use ovm_next.Config.{Config, mode_container}
use ovm_next.Machine.{with_resources}
use ovm_next.Storage.Disk.{writing_disks}
use ovm_next.Storage.Var.{with_var_disk, reconcile_var_raw_disk}
use ovm_next.Storage.External.{with_disks}
use ovm_next.Build.Paths.{get_socket_file, get_ssh_private_key_file, get_rootfs_dir}
use ovm_next.Forward.Parse.{parse_rules, parsing}
use ovm_next.Forward.Routes.{build_routes}
use ovm_next.Lifecycle.Cleanup.{Callback, add, clean_if}
use ovm_next.Build.Spec.{Machine, new_machine}
use ovm_next.Build.Host.{BuildHost, BuildError, Build}
use ovm_next.Build.Workspace.{lock, setup_workspace, set_resources, configure_ssh}
use ovm_next.Build.Network.{configure_gvisor, configure_tsi, configure_network, apply_system_proxy}
use ovm_next.Build.Rootfs.{
  with_user_provided_rootfs, with_built_in_rootfs, with_mount_user_home, set_mounts, set_var_disk,
  set_disks,
}
use ovm_next.Build.Services.{configure_podman, configure_vm_ctl_api}
use ovm_next.Build.Guest.{install_guest_agent, configure_guest_agent}

module _ {W : Type 0} (host : BuildHost W) where
  -- `applySystemProxy` if the configuration asks for it
  unfoldable pub set_proxy : Config → Machine → Build W Machine
  set_proxy cfg m = if cfg.proxy then apply_system_proxy host m else pure m

  -- The forward rules: they must have routes.
  unfoldable pub set_forwards : List Text → Machine → Build W Machine
  set_forwards specs m = do
    rules ← of_result BuildError.forward (parse_rules specs)
    _ ← of_result BuildError.route (build_routes rules)
    pure (record m { unix_socket_forwards = rules })

  -- `detectTTY`
  unfoldable pub detect_tty : Machine → Machine
  detect_tty m = record m {
    tty = host.stdin_is_terminal && host.stdout_is_terminal && host.stderr_is_terminal;
  }

  -- The first half of `buildMachine` behind the workspace: what the services of the host need.
  unfoldable pub assemble_host : Config → Machine → Build W Machine
  assemble_host cfg m = do
    m₁ ← configure_ssh host (record m { log_file = cfg.log_to })
    m₂ ← set_resources host cfg.memory_mb (to_u8 cfg.cpus) m₁
    m₃ ← configure_network host cfg.network m₂
    m₄ ← set_proxy cfg m₃
    m₅ ← with_built_in_rootfs host m₄
    m₆ ← with_mount_user_home host m₅
    configure_podman host m₆

  -- The second half: disks, mounts, forwards, guest agent and management API.
  unfoldable pub assemble_guest : Config → Machine → Build W Machine
  assemble_guest cfg m = do
    m₁ ← set_var_disk host cfg.var_disk m
    m₂ ← set_disks host cfg.external_disks m₁
    m₃ ← set_forwards cfg.forward_unix (set_mounts host cfg.mounts m₂)
    m₄ ← configure_guest_agent host cfg.env m₃
    m₅ ← configure_vm_ctl_api host m₄
    pure (detect_tty m₅)

  -- The function that gives the lock back and removes its file.
  abbrev pub unlock_callback : Text → Text → Callback W
  unlock_callback dir path w =
      ((host.remove (path ++ codes ".lock") (host.unlock (dir ++ codes ".lock") w).0).0, false)

  abbrev pub remove_callback : Text → Callback W
  remove_callback path w = ((host.remove_all path w).0, false)

  abbrev pub callbacks_of : Machine → Text → List (Callback W)
  callbacks_of m path =
      add (some (remove_callback path)) (add (some (unlock_callback m.workspace_dir path)) [])

  -- The deferred `CleanIfErr`: a machine is returned with its cleanup, an error behind it.
  abbrev pub finish :
      List (Callback W)
      → W × Result BuildError Machine
      → W × Result BuildError (Machine × List (Callback W))
  finish funcs (w, ok m) = ((clean_if false funcs w).1, ok (m, (clean_if false funcs w).0))
  finish funcs (w, err e) = ((clean_if true funcs w).1, err e)

  abbrev pub build_in :
      Config
      → Text
      → W × Result BuildError Machine
      → W × Result BuildError (Machine × List (Callback W))
  build_in cfg path (w, err e) = finish [] (w, err e)
  build_in cfg path (w, ok m) =
      finish (callbacks_of m path) ((assemble_host cfg m >>= assemble_guest cfg) w)

  -- `buildMachine`
  unfoldable pub build_machine : Config → Text → Action BuildError W (Machine × List (Callback W))
  build_machine cfg path w =
      if cfg.run_mode == mode_container
      then build_in cfg path (setup_workspace host path (new_machine (codes "container")) w)
      else (w, err (BuildError.unsupported_mode cfg.run_mode))

-- What a run computes with.
unfoldable pub building : Unit {0}
unfolding ◌>>=◌ ◌==◌ has_prefix is_abs abs clean join dir writing_disks with_var_disk
    reconcile_var_raw_disk with_disks parsing parse_rules build_routes with_resources add
    get_socket_file get_ssh_private_key_file get_rootfs_dir new_machine lock setup_workspace
    set_resources configure_ssh configure_gvisor configure_tsi configure_network apply_system_proxy
    with_user_provided_rootfs with_built_in_rootfs with_mount_user_home set_mounts set_var_disk
    set_disks configure_podman configure_vm_ctl_api install_guest_agent configure_guest_agent
    assemble_host assemble_guest set_proxy set_forwards detect_tty build_machine
building = tt
