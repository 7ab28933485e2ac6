-- ===== src/Guest/Services.antt =====
-- The services that the agent runs: cmd/guest-agent/pkg/service/dropbear.go and
-- cmd/guest-agent/pkg/service/podman.go. A service that is prepared is run by the supervisor.
use ovm_next.Base.{ℕ, Text, codes, ◌==◌, if◌then◌else◌, true, List, [], ◌∷◌, ◌++◌}
use ovm_next.Base.Action.{Action, ◌>>=◌, pure, try}
use ovm_next.FilePath.{dir}
use ovm_next.Build.Spec.{Machine}
use ovm_next.Lifecycle.Supervisor.{Policy}
use ovm_next.Guest.System.{System}

-- The part of the supervisor's `Config` that says what is run and when again; `retry_delay` is in
-- milliseconds.
pub record Supervised : Type 0 where
  pub command : Text
  pub args : List Text
  pub env : List Text
  pub policy : Policy
  pub retry_delay : ℕ

-- `DropbearConfig`
pub record DropbearConfig : Type 0 where
  pub listen_addr : Text
  pub private_key_path : Text
  pub authorized_keys_file : Text
  pub pid_file : Text

pub data ServiceError : Type 0 where
  no_key_dir no_host_key no_keys_dir no_authorized_keys no_script_dir no_script : ServiceError

abbrev pub dropbearmulti_path : Text
dropbearmulti_path = codes "/.bin/dropbearmulti"

abbrev pub forever : Policy
forever = record { restart = true; max_retries = 0 }

-- The program that `Dropbear.Start` hands to the supervisor
unfoldable pub dropbear_service : DropbearConfig → Supervised
dropbear_service cfg = record {
  command = dropbearmulti_path;
  args =
      (codes "dropbear"
        ∷ codes "-D"
        ∷ dir cfg.authorized_keys_file
        ∷ codes "-p"
        ∷ cfg.listen_addr
        ∷ codes "-r"
        ∷ cfg.private_key_path
        ∷ codes "-F"
        ∷ codes "-s"
        ∷ [])
      ++ (if cfg.pid_file == [] then [] else codes "-P" ∷ cfg.pid_file ∷ []);
  env = codes "PASS_FILEPEM_CHECK=1" ∷ [];
  policy = forever;
  retry_delay = 500;
}

-- The program that `StartGuestPodmanService` hands to the supervisor
unfoldable pub podman_service : Text → Machine → Supervised
podman_service log_level m = record {
  command = codes "podman";
  args =
      codes "--log-level"
      ∷ log_level
      ∷ codes "system"
      ∷ codes "service"
      ∷ codes "--time=0"
      ∷ (codes "tcp://" ++ m.podman_info.guest_podman_api_listen_addr)
      ∷ [];
  env = [];
  policy = forever;
  retry_delay = 500;
}

module _ {W : Type 0} (sys : System W) (podman_script : Text) where
  -- `GenerateHostKey`
  unfoldable pub generate_host_key : DropbearConfig → Action ServiceError W (Unit {0})
  generate_host_key cfg = do
    _ ← try no_key_dir (sys.make_dir (dir cfg.private_key_path) 0o755)
    try no_host_key (
        sys.run_dropbear (
          codes "dropbearkey"
          ∷ codes "-t"
          ∷ codes "ed25519"
          ∷ codes "-f"
          ∷ cfg.private_key_path
          ∷ []))

  -- `WriteAuthorizedKeys`
  unfoldable pub write_authorized_keys : DropbearConfig → Text → Action ServiceError W (Unit {0})
  write_authorized_keys cfg public_key = do
    _ ← try no_keys_dir (sys.make_dir (dir cfg.authorized_keys_file) 0o755)
    try no_authorized_keys (sys.write_file cfg.authorized_keys_file public_key 0o600)

  abbrev pub dropbear_config : Machine → DropbearConfig
  dropbear_config m = record {
    listen_addr = m.ssh_info.guest_ssh_server_listen_addr;
    private_key_path = m.ssh_info.guest_ssh_private_key_file;
    authorized_keys_file = m.ssh_info.guest_ssh_authorized_keys;
    pid_file = m.ssh_info.guest_ssh_pid_file;
  }

  -- `StartGuestSSHServer`, up to the supervisor
  unfoldable pub start_guest_ssh_server : Machine → Action ServiceError W Supervised
  start_guest_ssh_server m = do
    _ ← generate_host_key (dropbear_config m)
    _ ← write_authorized_keys (dropbear_config m) m.ssh_info.host_ssh_public_key
    pure (dropbear_service (dropbear_config m))

  -- `generateCompatScripts`
  unfoldable pub generate_compat_scripts : Action ServiceError W (Unit {0})
  generate_compat_scripts = do
    _ ← try no_script_dir (sys.make_dir (dir (codes "/etc/init.d/podman")) 0o755)
    try no_script (sys.write_file (codes "/etc/init.d/podman") podman_script 0o755)

  -- `StartGuestPodmanService`, up to the supervisor
  unfoldable pub start_guest_podman_service : Machine → Action ServiceError W Supervised
  start_guest_podman_service m = do
    _ ← generate_compat_scripts
    pure (podman_service sys.log_level m)
