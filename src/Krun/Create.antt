-- ===== src/Krun/Create.antt =====
-- `VM.Create` of pkg/libkrun/vm.go, with console.go, vsock.go, network.go and storage.go.
use ovm_next.Base.{
  ℕ, Text, codes, ◌==◌, contains, if◌then◌else◌, List, [], ◌∷◌, Option, none, some, Result, err,
}
use ovm_next.Base.Action.{◌>>=◌, pure, fail, try, of_result}
use ovm_next.Define.{gvisor, tsi}
use ovm_next.Machine.{krun_resources}
use ovm_next.Mount.{Mount}
use ovm_next.Storage.Disk.{BlkDev}
use ovm_next.Forward.Routes.{Route, build_routes}
use ovm_next.Build.Spec.{Machine}
use ovm_next.Krun.Calls.{
  KrunError, KrunHost, Krun, log_level, parse_unix_addr, must, check, ignore, init_log, create_ctx,
  set_vm_config, set_rlimits, set_root, disable_implicit_console, add_console_multiport,
  add_console_port_tty, add_console_port_inout, disable_implicit_vsock, add_vsock, add_vsock_port,
  add_net_unixstream, add_net_unixgram, add_disk, add_virtiofs, set_gpu_options, set_nested_virt,
  set_workdir, set_exec, route, unknown_network, not_regular, unresolved, not_directory,
}

-- `DefaultVSockPort`
abbrev pub ignition_port : ℕ
ignition_port = 25882

module _ {W : Type 0} (host : KrunHost W) (m : Machine) where
  -- `init`
  unfoldable pub init : Krun W (Unit {0})
  init = do _ ← check host (init_log (log_level host.debug)); check host create_ctx

  -- The sizes that libkrun gets, which are narrower than the machine's.
  abbrev pub sizes : ℕ × ℕ
  sizes = krun_resources (record { memory_in_mb = m.memory_in_mb; cpus = m.cpus })

  -- `setResources` and `setRootFS`
  unfoldable pub set_resources : Krun W (Unit {0})
  set_resources = do
    _ ← must host (set_vm_config sizes.0 sizes.1)
    must host (set_rlimits (codes "6=4096:8192" ∷ []))

  unfoldable pub set_root_fs : Krun W (Unit {0})
  set_root_fs = must host (set_root m.root_fs)

  -- `addStdioRedirect`
  unfoldable pub add_stdio_redirect : Krun W (Unit {0})
  add_stdio_redirect = do
    _ ← check host (add_console_port_inout (codes "krun-stdin"))
    _ ← check host (add_console_port_inout (codes "krun-stdout"))
    check host (add_console_port_inout (codes "krun-stderr"))

  -- `addLogAndSignal`
  unfoldable pub add_log_and_signal : Krun W (Unit {0})
  add_log_and_signal = do
    _ ← try KrunError.no_log (host.open_log m.log_file)
    check host (add_console_port_inout (codes "guest-logs"))

  -- `setupConsole`
  unfoldable pub setup_console : Krun W (Unit {0})
  setup_console = do
    _ ← must host disable_implicit_console
    _ ← check host add_console_multiport
    _ ← try KrunError.no_console (host.open_console m.tty)
    _ ← check host (add_console_port_tty (codes "default-tty-console"))
    _ ← if m.tty then pure tt else add_stdio_redirect
    add_log_and_signal

  -- The loop of `setupVSock`
  unfoldable pub add_ports : List Route → Krun W (Unit {0})
  add_ports [] = pure tt
  add_ports (r ∷ rs) = do _ ← check host (add_vsock_port r.vsock_port r.host_path); add_ports rs

  -- `setupVSock`
  unfoldable pub setup_vsock : Krun W (Unit {0})
  setup_vsock = do
    _ ← must host disable_implicit_vsock
    _ ← must host (add_vsock (m.virtual_network_mode == tsi))
    path ← of_result (λ e. e) (parse_unix_addr host m.ignition_listen_addr)
    _ ← check host (add_vsock_port ignition_port path)
    routes ← of_result route (build_routes m.unix_socket_forwards)
    add_ports routes

  -- `setupGVisor`
  unfoldable pub setup_gvisor : Krun W (Unit {0})
  setup_gvisor = do
    path ← of_result (λ e. e) (parse_unix_addr host m.gvp_vnet_addr)
    check host (if host.linux then add_net_unixstream path else add_net_unixgram path)

  -- `setupNetwork`
  unfoldable pub setup_network : Krun W (Unit {0})
  setup_network =
      if m.virtual_network_mode == gvisor
      then setup_gvisor
      else if m.virtual_network_mode == tsi
      then pure tt
      else fail (unknown_network m.virtual_network_mode)

  -- `addDisk`
  unfoldable pub attach_disk : Text → Krun W (Unit {0})
  attach_disk path w =
      if host.is_regular path w then check host (add_disk path) w else (w, err (not_regular path))

  abbrev pub share_resolved : Text → Text → Option Text → W → W × Result KrunError (Unit {0})
  share_resolved tag path none w = (w, err (unresolved path))
  share_resolved tag path (some real) w =
      if host.is_directory real w
      then check host (add_virtiofs tag real) w
      else (w, err (not_directory real))

  -- `addVirtioFS`
  unfoldable pub share : Text → Text → Krun W (Unit {0})
  share tag path w = share_resolved tag path (host.resolve path w) w

  -- `setupStorage`: its two loops
  unfoldable pub add_disks : List BlkDev → Krun W (Unit {0})
  add_disks [] = pure tt
  add_disks (d ∷ ds) = do _ ← attach_disk d.path; add_disks ds

  unfoldable pub add_shares : List Mount → Krun W (Unit {0})
  add_shares [] = pure tt
  add_shares (s ∷ ss) = do _ ← share s.tag s.source; add_shares ss

  unfoldable pub setup_storage : Krun W (Unit {0})
  setup_storage = do _ ← add_disks m.blk_devs; add_shares m.mounts

  -- `setupGPU` and `setupNestedVirt`
  unfoldable pub setup_gpu : Krun W (Unit {0})
  setup_gpu = if host.linux then pure tt else ignore host set_gpu_options

  unfoldable pub setup_nested_virt : Krun W (Unit {0})
  setup_nested_virt w = (if host.nests w then ignore host set_nested_virt else pure tt) w

  -- `setGuestAgent`
  unfoldable pub set_guest_agent : Krun W (Unit {0})
  set_guest_agent = do
    _ ← must host (set_workdir m.guest_agent.workdir)
    must host (set_exec (codes "/.bin/guest-agent") m.guest_agent.args m.guest_agent.env)

  -- `Create`
  unfoldable pub create : Krun W (Unit {0})
  create = do
    _ ← init
    _ ← set_resources
    _ ← set_root_fs
    _ ← setup_console
    _ ← setup_vsock
    _ ← setup_network
    _ ← setup_storage
    _ ← setup_gpu
    _ ← setup_nested_virt
    set_guest_agent

-- What a run computes with.
unfoldable pub creating : Unit {0}
unfolding ◌>>=◌ ◌==◌ contains log_level parse_unix_addr must check ignore build_routes init
    set_resources set_root_fs add_stdio_redirect add_log_and_signal setup_console add_ports
    setup_vsock setup_gvisor setup_network attach_disk share add_disks add_shares setup_storage
    setup_gpu setup_nested_virt set_guest_agent create krun_resources
creating = tt
