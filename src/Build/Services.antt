-- ===== src/Build/Services.antt =====
-- The addresses of podman and of the management API: `configurePodman` and `configureVMCtlAPI`.
use ovm_next.Base.{
  Text, ℕ, codes, ◌==◌, if◌then◌else◌, List, [], ◌∷◌, ◌++◌, decimal, join_host_port,
}
use ovm_next.Base.Action.{◌>>=◌, pure}
use ovm_next.FilePath.{dir}
use ovm_next.Define.{tsi}
use ovm_next.Build.Url.{string_of_url, unix_url}
use ovm_next.Build.Paths.{get_podman_socket_file, get_vm_ctl_socket_file}
use ovm_next.Build.Spec.{Machine, ProxySetting}
use ovm_next.Build.Network.{unspecified_address, local_host}
use ovm_next.Build.Host.{BuildHost, BuildError, Build, make_dir, remove_stale, needed}

-- The environment of podman in the guest.
abbrev pub proxy_envs : ProxySetting → List Text
proxy_envs p =
    if p.use_proxy
    then (codes "http_proxy=" ++ p.http_proxy) ∷ (codes "https_proxy=" ++ p.https_proxy) ∷ []
    else []

abbrev pub listen_ip : Text → Text
listen_ip mode = if mode == tsi then local_host else unspecified_address

-- What `configurePodman` sets
abbrev pub with_podman : Machine → ℕ → Machine
with_podman m port = record m {
  podman_info = record {
    host_podman_proxy_addr = string_of_url (unix_url (get_podman_socket_file m.workspace_dir));
    guest_podman_api_listen_addr = join_host_port (listen_ip m.virtual_network_mode) (decimal port);
    guest_podman_run_with_envs = proxy_envs m.proxy_setting;
  };
}

module _ {W : Type 0} (host : BuildHost W) where
  -- `configurePodman`
  unfoldable pub configure_podman : Machine → Build W Machine
  configure_podman m =
      let api_path = get_podman_socket_file m.workspace_dir in
      do
        port ← λ w. needed BuildError.no_port (host.available_port w)
        _ ← make_dir host (dir api_path) 0o755
        pure (with_podman m port)

  -- `configureVMCtlAPI`
  unfoldable pub configure_vm_ctl_api : Machine → Build W Machine
  configure_vm_ctl_api m =
      let api_path = get_vm_ctl_socket_file m.workspace_dir in
      do
        _ ← make_dir host (dir api_path) 0o755
        _ ← remove_stale host api_path
        pure (record m { vm_ctl_addr = string_of_url (unix_url api_path) })
