-- ===== src/Network/Gvproxy.antt =====
-- pkg/gvproxy/gvproxy.go, with the network stack itself as a parameter: `InitCfg`, and `Run` up to
-- its error group; `StartNetworkStack` of pkg/service/lifecycle/host_services.go.
use ovm_next.Base.{
  ℕ, Text, codes, ◌==◌, decimal, join_host_port, if◌then◌else◌, Bool, true, false, List, [], ◌∷◌,
  ◌++◌, Option, none, some, Result, ok, err,
}
use ovm_next.Base.Action.{Action, ◌>>=◌, pure, fail, try}
use ovm_next.Define.{tsi}
use ovm_next.Build.Url.{Url}
use ovm_next.Build.Network.{local_host}
use ovm_next.Build.Spec.{Machine}
use ovm_next.Network.HostPort.{split_host_port}
use ovm_next.Network.HostServices.{guest_ip, port_or_empty}

-- `GvproxyConfig`, as far as it is set or read
pub record GvproxyConfig : Type 0 where
  pub listen : List Text
  pub qemu : Text
  pub vfkit : Text
  pub services : Text
  pub gateway_ip : Text
  -- Whether the protocol is that of Qemu.
  pub qemu_protocol : Bool
  pub forwards : List (Text × Text)

pub data StackError : Type 0 where
  bad_config bad_vnet_addr no_ssh_port no_network : StackError
  wrong_scheme cannot_listen : Text → StackError

pub record StackHost (W : Type 0) : Type 0 where
  pub linux : Bool
  -- `yaml.Unmarshal` of the embedded configuration
  pub load : Option GvproxyConfig
  pub parse_url : Text → Option Url
  pub remove : Text → W → W
  -- `GetAvailablePort` for a preferred port
  pub available_port : ℕ → W → W × Option ℕ
  -- `virtualnetwork.New`
  pub new_network : GvproxyConfig → W → W × Bool
  -- `transport.Listen`, `transport.ListenUnixgram`, and `Listen` of the network itself
  pub listen : Text → W → W × Bool
  pub listen_unixgram : Text → W → W × Bool
  pub listen_inside : Text → W → W × Bool

abbrev pub ssh_local_forward_listen_port : ℕ
ssh_local_forward_listen_port = 6123

-- What the error group serves.
pub data Endpoint : Type 0 where
  control services qemu vfkit : Text → Endpoint
  gateway : Text → Endpoint

module _ {W : Type 0} (host : StackHost W) where
  abbrev pub loaded : Option GvproxyConfig → Action StackError W GvproxyConfig
  loaded none = fail bad_config
  loaded (some config) = pure config

  -- The check of the address of the virtual network, and the end of a socket that is left there
  abbrev pub vnet_checked : Text → Option Url → Action StackError W (Unit {0})
  vnet_checked scheme none w = (w, err bad_vnet_addr)
  vnet_checked scheme (some url) w =
      if url.scheme == scheme
      then (host.remove url.path w, ok tt)
      else (w, err (wrong_scheme url.scheme))

  abbrev pub vnet_scheme : Text
  vnet_scheme = if host.linux then codes "unix" else codes "unixgram"

  abbrev pub with_vnet : Text → GvproxyConfig → GvproxyConfig
  with_vnet addr config =
      if host.linux
      then record config { qemu = addr; qemu_protocol = true }
      else record config { vfkit = addr; qemu_protocol = false }

  abbrev pub port_found : W × Option ℕ → W × Result StackError ℕ
  port_found (w, none) = (w, err no_ssh_port)
  port_found (w, some port) = (w, ok port)

  -- The forward of a port of the host to the ssh server of the guest
  abbrev pub ssh_forward : Machine → ℕ → Text × Text
  ssh_forward m port = (
    local_host ++ codes ":" ++ decimal port,
    join_host_port guest_ip
        (port_or_empty (split_host_port m.ssh_info.guest_ssh_server_listen_addr)),
  )

  -- `InitCfg`: the configuration, and the machine that it changes
  unfoldable pub init_cfg : Machine → Action StackError W (GvproxyConfig × Machine)
  init_cfg m = do
    config ← loaded host.load
    _ ← vnet_checked vnet_scheme (host.parse_url m.gvp_vnet_addr)
    port ← λ w. port_found (host.available_port ssh_local_forward_listen_port w)
    pure (
      record (with_vnet m.gvp_vnet_addr config) {
        listen = config.listen ++ m.gvp_ctl_addr ∷ [];
        forwards = ssh_forward m port ∷ [];
      },
      record m {
        ssh_info = record m.ssh_info { host_ssh_proxy_listen_addr = (ssh_forward m port).0 };
      },
    )

  -- The loop over the control endpoints in `Run`
  unfoldable pub listen_all : List Text → Action StackError W (List Endpoint)
  listen_all [] = pure []
  listen_all (addr ∷ addrs) = do
    _ ← try (cannot_listen addr) (host.listen addr)
    others ← listen_all addrs
    pure (control addr ∷ others)

  -- One more endpoint, unless its address is empty
  abbrev pub listen_unless_empty :
      (Text → Endpoint) → (Text → W → W × Bool) → Text → Action StackError W (List Endpoint)
  listen_unless_empty kind call addr =
      if addr == []
      then pure []
      else do _ ← try (cannot_listen addr) (call addr); pure (kind addr ∷ [])

  -- `Run` up to `g.Wait()`: the machine, and what is served
  unfoldable pub run : Machine → Action StackError W (Machine × List Endpoint)
  run m = do
    configured ← init_cfg m
    let config = configured.0
    _ ← try no_network (host.new_network config)
    controls ← listen_all config.listen
    extra ← listen_unless_empty services host.listen config.services
    _ ←
        try (cannot_listen config.gateway_ip)
          (host.listen_inside (config.gateway_ip ++ codes ":80"))
    streams ← listen_unless_empty qemu host.listen config.qemu
    datagrams ← listen_unless_empty vfkit host.listen_unixgram config.vfkit
    pure (
      configured.1,
      controls ++ extra ++ gateway (config.gateway_ip ++ codes ":80") ∷ streams ++ datagrams,
    )

  -- `StartNetworkStack`
  unfoldable pub start_network_stack : Machine → Action StackError W (Machine × List Endpoint)
  start_network_stack m = if m.virtual_network_mode == tsi then pure (m, []) else run m
