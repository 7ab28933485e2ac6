-- ===== src/Guest/Boot.antt =====
-- The start of the agent: `run` and `dockerEngineMode` of cmd/guest-agent/main.go, `InitBinDir` of
-- cmd/guest-agent/pkg/service/embedded.go, and cmd/guest-agent/pkg/service/vmconfig.go with
-- `GetVMConfig` of cmd/guest-agent/pkg/vsock/vsockutils.go. The two services are prepared one after
-- the other, as one order of their goroutines.
use ovm_next.Base.{
  ℕ, eqb, Text, codes, ◌==◌, if◌then◌else◌, List, [], ◌∷◌, Option, none, Result, ok, err, to_lower,
}
use ovm_next.Base.Action.{Action, ◌>>=◌, pure, fail, try, lift}
use ovm_next.FilePath.{join}
use ovm_next.Build.Spec.{Machine}
use ovm_next.Http.Client.{HttpError, get, do_and_read}
use ovm_next.Mount.Guest.{MountError, mount_all_pseudo_mnt, mount_block_devices, mount_virtiofs}
use ovm_next.Guest.Polling.{Polled, found, ended, exhausted, retry}
use ovm_next.Guest.Readiness.{vsock_client}
use ovm_next.Guest.System.{System}
use ovm_next.Guest.Network.{NetworkError, configure_network, virtual_network_type}
use ovm_next.Guest.Services.{
  Supervised, ServiceError, start_guest_podman_service, start_guest_ssh_server,
}
use ovm_next.Guest.Forwarders.{start_forwarders}

pub data BootError : Type 0 where
  -- The panic of `setupLogger`
  bad_log_level : Text → BootError
  no_bin_dir no_tmpfs : BootError
  not_extracted : Text → BootError
  no_config not_saved out_of_fuel : BootError
  pseudo block_devices shares : MountError → BootError
  network : NetworkError → BootError
  podman ssh : ServiceError → BootError

abbrev pub guest_hidden_bin_dir : Text
guest_hidden_bin_dir = codes "/.bin"

-- The programs that are embedded in the agent, by name.
abbrev pub Binaries : Type 0
Binaries = List (Text × Text)

module _ {W : Type 0} (sys : System W) where
  -- `setupLogger`
  unfoldable pub setup_logger : Action BootError W (Unit {0})
  setup_logger =
      let named = to_lower sys.log_level_variable in
      let level = if named == [] then codes "info" else named in
      if sys.is_log_level level then pure tt else fail (bad_log_level level)

  -- The loop of `InitBinDir`
  unfoldable pub extract_all : Binaries → Action BootError W (Unit {0})
  extract_all [] = pure tt
  extract_all ((name, bytes) ∷ binaries) = do
    _ ←
        try (not_extracted name)
          (sys.write_file (join (guest_hidden_bin_dir ∷ name ∷ [])) bytes 0o755)
    extract_all binaries

  -- `InitBinDir`
  unfoldable pub init_bin_dir : Binaries → Action BootError W (Unit {0})
  init_bin_dir binaries = do
    _ ← try no_bin_dir (sys.make_dir guest_hidden_bin_dir 0o755)
    _ ← try no_tmpfs (sys.mount_tmpfs guest_hidden_bin_dir)
    extract_all binaries

  abbrev pub decoded : W × Result HttpError (Text × ℕ) → W × Option Machine
  decoded (w, err e) = (w, none)
  decoded (w, ok (body, code)) = (w, if eqb code 200 then sys.decode body else none)

  -- `vsock.Service.GetVMConfig`
  unfoldable pub fetch_config : W → W × Option Machine
  fetch_config w = decoded (do_and_read sys.net (get vsock_client (codes "/vmconfig")) w)

  abbrev pub fetched : W × Polled Machine → W × Result BootError Machine
  fetched (w, found m) = (w, ok m)
  fetched (w, ended) = (w, err no_config)
  fetched (w, exhausted) = (w, err out_of_fuel)

  -- `getVMConfig`
  unfoldable pub get_config : ℕ → Action BootError W Machine
  get_config fuel w = fetched (retry sys.tick fetch_config fuel w)

  -- `GetVMConfig` of the service
  unfoldable pub get_vm_config : ℕ → Action BootError W Machine
  get_vm_config fuel = do
    m ← get_config fuel
    _ ← try not_saved (sys.write_file (codes "/vmconfig.json") (sys.encode m) 0o644)
    pure m

  -- `StartUnixForwarders` has no result.
  abbrev pub forward : Machine → Action BootError W (Unit {0})
  forward m w = (start_forwarders sys m.unix_socket_forwards w, ok tt)

  -- `dockerEngineMode`: the programs that the supervisor runs
  unfoldable pub docker_engine_mode : Text → ℕ → Machine → Action BootError W (List Supervised)
  docker_engine_mode script fuel m = do
    _ ← lift network (configure_network sys (virtual_network_type m.virtual_network_mode) fuel)
    engine ← lift podman (start_guest_podman_service sys script m)
    server ← lift ssh (start_guest_ssh_server sys script m)
    pure (engine ∷ server ∷ [])

  -- `run` behind `GetVMConfig`, up to the mode
  unfoldable pub prepare : Machine → Action BootError W (Unit {0})
  prepare m = do
    _ ← lift pseudo (mount_all_pseudo_mnt sys.kernel)
    _ ← lift block_devices (mount_block_devices sys.kernel m.blk_devs)
    _ ← lift shares (mount_virtiofs sys.kernel m.mounts)
    forward m

  -- `run`, which gets as far as the programs of its services
  unfoldable pub run : Binaries → Text → ℕ → Action BootError W (Machine × List Supervised)
  run binaries script fuel = do
    _ ← setup_logger
    _ ← init_bin_dir binaries
    m ← get_vm_config fuel
    _ ← prepare m
    services ← docker_engine_mode script fuel m
    pure (m, services)
