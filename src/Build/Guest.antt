-- ===== src/Build/Guest.antt =====
-- The agent that runs in the guest: `configureGuestAgent`.
use ovm_next.Base.{Text, codes, ◌==◌, if◌then◌else◌, List, [], ◌∷◌, ◌++◌}
use ovm_next.Base.Action.{◌>>=◌, pure, fail}
use ovm_next.FilePath.{dir, join}
use ovm_next.Build.Url.{string_of_url, unix_url}
use ovm_next.Build.Paths.{get_ign_socket_file}
use ovm_next.Build.Spec.{Machine}
use ovm_next.Build.Network.{host_domain_in_gvp_net}
use ovm_next.Build.Host.{BuildHost, BuildError, Build, make_dir, remove_stale, write, known}

-- `finalEnv`
unfoldable pub final_env : Text → List Text → List Text
final_env log_level extra_envs =
    codes "PATH=/usr/local/sbin:/usr/local/bin:/usr/sbin:/usr/bin:/sbin:/bin"
    ∷ codes "LC_ALL=C.UTF-8"
    ∷ codes "LANG=C.UTF-8"
    ∷ codes "TMPDIR=/tmp"
    ∷ (codes "HOST_DOMAIN=" ++ host_domain_in_gvp_net)
    ∷ (codes "LOG_LEVEL=" ++ log_level)
    ∷ extra_envs

module _ {W : Type 0} (host : BuildHost W) where
  -- What `configureGuestAgent` sets last
  abbrev pub with_agent : List Text → Machine → Machine
  with_agent extra_envs m = record m {
    guest_agent = record {
      workdir = codes "/";
      args = [];
      env = final_env host.log_level extra_envs;
    };
  }

  -- The part of `configureGuestAgent` behind its check of the root file system.
  unfoldable pub install_guest_agent : List Text → Machine → Build W Machine
  install_guest_agent extra_envs m =
      let file = join (m.root_fs ∷ codes ".bin" ∷ codes "guest-agent" ∷ []) in
      do
        _ ← make_dir host (dir file) 0o755
        exec ← known BuildError.no_executable host.executable
        agent ← λ w.
            known BuildError.no_agent
              (host.read_file
                (join (dir exec ∷ codes ".." ∷ codes "helper" ∷ codes "guest-agent" ∷ [])) w)
              w
        _ ← write host file agent 0o755
        pure (with_agent extra_envs m)

  -- `configureGuestAgent`
  unfoldable pub configure_guest_agent : List Text → Machine → Build W Machine
  configure_guest_agent extra_envs m =
      let sock = get_ign_socket_file m.workspace_dir in
      if m.workspace_dir == [] then fail BuildError.workspace_empty else do
        _ ← make_dir host (dir sock) 0o755
        _ ← remove_stale host sock
        if m.root_fs == []
            then fail BuildError.rootfs_empty
            else install_guest_agent extra_envs
                (record m { ignition_listen_addr = string_of_url (unix_url sock) })
