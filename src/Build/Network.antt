-- ===== src/Build/Network.antt =====
-- pkg/librevm/network.go: the network of a machine, by its mode; and `applySystemProxy` of
-- pkg/librevm/machine.go.
use ovm_next.Base.{
  Text, ℕ, codes, ◌==◌, contains, if◌then◌else◌, ◌&&◌, ◌||◌, ◌++◌, ok, true, decimal,
  join_host_port,
}
use ovm_next.Base.Action.{◌>>=◌, pure, fail}
use ovm_next.FilePath.{dir}
use ovm_next.Define.{gvisor, tsi}
use ovm_next.Build.Url.{Url, string_of_url, unix_url}
use ovm_next.Build.Paths.{get_gvp_ctl_socket_file, get_vnet_socket_file}
use ovm_next.Build.Spec.{Machine}
use ovm_next.Build.Host.{BuildHost, SystemProxy, BuildError, Build, make_dir, needed}

abbrev pub unspecified_address : Text
unspecified_address = codes "0.0.0.0"

abbrev pub local_host : Text
local_host = codes "127.0.0.1"

abbrev pub host_domain_in_gvp_net : Text
host_domain_in_gvp_net = codes "host.containers.internal"

module _ {W : Type 0} (host : BuildHost W) where
  -- `_ = os.Remove(path)`
  abbrev drop : Text → Build W (Unit {0})
  drop path w = ((host.remove path w).0, ok tt)

  abbrev pub gvp_vnet_addr_of : Text → Text
  gvp_vnet_addr_of workspace =
      (if host.linux then codes "unix://" else codes "unixgram://")
      ++ get_vnet_socket_file workspace

  -- What `gVisorNetworkConfig.Configure` sets
  abbrev pub with_gvisor : Machine → ℕ → Machine
  with_gvisor m port = record m {
    gvp_ctl_addr = string_of_url (unix_url (get_gvp_ctl_socket_file m.workspace_dir));
    gvp_vnet_addr = gvp_vnet_addr_of m.workspace_dir;
    ssh_info = record m.ssh_info {
      guest_ssh_server_listen_addr = join_host_port unspecified_address (decimal port);
    };
  }

  -- `gVisorNetworkConfig.Configure`
  unfoldable pub configure_gvisor : Machine → Build W Machine
  configure_gvisor m =
      let ctl = get_gvp_ctl_socket_file m.workspace_dir in
      do
        _ ← drop ctl
        _ ← drop (get_vnet_socket_file m.workspace_dir)
        _ ← make_dir host (dir ctl) 0o755
        port ← λ w. needed BuildError.no_port (host.available_port w)
        pure (with_gvisor m port)

  -- What `tsiNetworkConfig.Configure` sets
  abbrev pub with_tsi : Machine → ℕ → Machine
  with_tsi m port = record m {
    ssh_info = record m.ssh_info {
      guest_ssh_server_listen_addr = join_host_port local_host (decimal port);
      host_ssh_proxy_listen_addr = join_host_port local_host (decimal port);
    };
  }

  -- `tsiNetworkConfig.Configure`
  unfoldable pub configure_tsi : Machine → Build W Machine
  configure_tsi m = do
    port ← λ w. needed BuildError.no_port (host.available_port w)
    pure (with_tsi m port)

  -- `configureNetwork`, with the strategy that `getNetworkStrategy` returns
  unfoldable pub configure_network : Text → Machine → Build W Machine
  configure_network mode m =
      if mode == gvisor
      then configure_gvisor (record m { virtual_network_mode = mode })
      else if mode == tsi
      then configure_tsi (record m { virtual_network_mode = mode })
      else fail (BuildError.invalid_network mode)

  -- The proxy that the guest is told; behind gvisor the host has a name of its own.
  unfoldable pub proxy_for : Text → Url → Url
  proxy_for mode url =
      if mode == gvisor
        && (contains (string_of_url url) (codes "127.0.0.1")
            || contains (string_of_url url) (codes "localhost"))
      then record url { host = host_domain_in_gvp_net }
      else url

  abbrev pub with_proxy : Machine → SystemProxy → Build W Machine
  with_proxy m SystemProxy.unknown = fail BuildError.proxy_failed
  with_proxy m SystemProxy.disabled = pure m
  with_proxy m (SystemProxy.enabled url) = pure (record m {
    proxy_setting = record {
      use_proxy = true;
      http_proxy = string_of_url (proxy_for m.virtual_network_mode url);
      https_proxy = string_of_url (proxy_for m.virtual_network_mode url);
    };
  })

  -- `applySystemProxy`
  unfoldable pub apply_system_proxy : Machine → Build W Machine
  apply_system_proxy m w = with_proxy m (host.proxy w) w
