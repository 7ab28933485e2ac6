-- ===== src/Network/HostServices.antt =====
-- Which addresses the host dials: `StartPodmanProxy` of pkg/service/lifecycle/host_services.go, the
-- address in `MakeSSHClient` of pkg/service/ssh/ssh.go, and `dialTunnel` of pkg/ssh/ssh.go.
use ovm_next.Base.{
  ℕ, ◌<◌, ℤ, pos, Text, codes, ◌==◌, ==_iff, if◌then◌else◌, Bool, true, false, [], Result, ok, err,
  ◌>>=◌, ◌≡◌, refl, sym, ◌∙◌, ◌⊎◌, inl, inr, decimal, join_host_port,
}
use ovm_next.Define.{gvisor, tsi}
use ovm_next.Build.Spec.{Machine}
use ovm_next.Build.Host.{BuildHost}
use ovm_next.Build.Services.{listen_ip}
use ovm_next.Build.Properties.{IsBuilt}
use ovm_next.Config.{Config}
use ovm_next.Network.HostPort.{
  AddressError, split_host_port, parse_u16, scan_int, split-join_decimal, parse_u16-decimal,
  scan_int-decimal, has_char,
}

abbrev pub guest_ip : Text
guest_ip = codes "192.168.127.2"

pub data ProxyError : Type 0 where
  address number : AddressError → ProxyError
  unsupported : Text → ProxyError

-- What podman's proxy does: a tunnel through the control socket of the network stack to a port of
-- the guest, or a forwarder from a socket of the host to an address.
pub data Proxy : Type 0 where
  tunnel : Text → Text → Text → ℕ → Proxy
  forwarder : Text → Text → Proxy

abbrev named :
    {A : Type 0} → (AddressError → ProxyError) → Result AddressError A → Result ProxyError A
named f (ok a) = ok a
named f (err e) = err (f e)

-- `StartPodmanProxy`
unfoldable pub start_podman_proxy : Machine → Result ProxyError Proxy
start_podman_proxy m =
    if m.virtual_network_mode == gvisor
    then (do
      host_port ←
          named ProxyError.address (split_host_port m.podman_info.guest_podman_api_listen_addr)
      port ← named ProxyError.number (parse_u16 host_port.1)
      ok (tunnel m.gvp_ctl_addr m.podman_info.host_podman_proxy_addr guest_ip port))
    else if m.virtual_network_mode == tsi
    then ok
        (forwarder m.podman_info.host_podman_proxy_addr m.podman_info.guest_podman_api_listen_addr)
    else err (unsupported m.virtual_network_mode)

-- `_, portStr, _ := net.SplitHostPort(addr)`
abbrev pub port_or_empty : Result AddressError (Text × Text) → Text
port_or_empty (ok (host, port)) = port
port_or_empty (err e) = []

-- `guestAddr` in `MakeSSHClient`
unfoldable pub guest_ssh_addr : Machine → Text
guest_ssh_addr m =
    if m.virtual_network_mode == gvisor
    then join_host_port guest_ip
        (port_or_empty (split_host_port m.ssh_info.guest_ssh_server_listen_addr))
    else m.ssh_info.guest_ssh_server_listen_addr

-- The host and the port that `dialTunnel` asks the network stack for.
unfoldable pub tunnel_target : Text → Result AddressError (Text × ℤ)
tunnel_target addr = do
  host_port ← split_host_port addr
  port ← scan_int host_port.1
  ok (host_port.0, port)

-- The addresses that a machine listens on are split where they were joined.
split_listen_ip :
    (mode : Text) (n : ℕ)
    → split_host_port (join_host_port (listen_ip mode) (decimal n)) ≡ ok (listen_ip mode, decimal n)
unfolding join_host_port has_char
split_listen_ip mode n = go (mode == tsi)
  where
    go :
        (b : Bool)
        → split_host_port
            (join_host_port (if b then codes "127.0.0.1" else codes "0.0.0.0") (decimal n))
          ≡ ok ((if b then codes "127.0.0.1" else codes "0.0.0.0"), decimal n)
    go true = split-join_decimal (codes "127.0.0.1") _ _ n refl refl refl refl refl
    go false = split-join_decimal (codes "0.0.0.0") _ _ n refl refl refl refl refl

pub split_unspecified :
    (n : ℕ)
    → split_host_port (join_host_port (codes "0.0.0.0") (decimal n))
      ≡ ok (codes "0.0.0.0", decimal n)
unfolding join_host_port has_char
split_unspecified n = split-join_decimal (codes "0.0.0.0") _ _ n refl refl refl refl refl

split_guest_ip :
    (n : ℕ) → split_host_port (join_host_port guest_ip (decimal n)) ≡ ok (guest_ip, decimal n)
unfolding join_host_port has_char
split_guest_ip n = split-join_decimal guest_ip _ _ n refl refl refl refl refl

at_gvisor : (mode : Text) → mode ≡ gvisor → (mode == gvisor) ≡ true
at_gvisor mode e = (==_iff mode gvisor).1 e

at_tsi : (mode : Text) → mode ≡ tsi → ((mode == gvisor) ≡ false) × ((mode == tsi) ≡ true)
unfolding ◌==◌
at_tsi mode e = rw e (refl, refl)

module _ {W : Type 0} (host : BuildHost W) (cfg : Config) (ws : Text) (m : Machine)
    (b : IsBuilt host cfg ws m) where
  -- Where podman of a built machine listens on a port of 16 bits, its proxy leads to just that port
  -- of the guest, through the network stack or, behind TSI, to the address that podman listens on.
  pub start_podman_proxy-IsBuilt :
      (port : ℕ)
      → m.podman_info.guest_podman_api_listen_addr
        ≡ join_host_port (listen_ip cfg.network) (decimal port)
      → port < 65536
      → start_podman_proxy m
        ≡ ok (
            if cfg.network == gvisor
            then tunnel m.gvp_ctl_addr m.podman_info.host_podman_proxy_addr guest_ip port
            else forwarder m.podman_info.host_podman_proxy_addr
                m.podman_info.guest_podman_api_listen_addr)
  unfolding start_podman_proxy
  start_podman_proxy-IsBuilt port listens small = elim b.ssh.known_mode [
    | inl g ↦
        let split : split_host_port m.podman_info.guest_podman_api_listen_addr
            ≡ ok (listen_ip cfg.network, decimal port) =
          rw listens (split_listen_ip cfg.network port) in
        rw
          (
            at_gvisor cfg.network g,
            at_gvisor m.virtual_network_mode (b.network ∙ g),
            split,
            parse_u16-decimal port small,
          )
          refl
    | inr t ↦
        let here = at_tsi cfg.network t in
        let there = at_tsi m.virtual_network_mode (b.network ∙ t) in
        rw (here.0, there.0, there.1) refl
  ]

  -- Where the ssh server of a built machine listens on a port of 16 bits, an ssh client asks the
  -- network stack for just that port of the guest; behind TSI it dials the address that the
  -- machine records for the host.
  pub guest_ssh_addr-IsBuilt :
      (port : ℕ)
      → m.ssh_info.guest_ssh_server_listen_addr
        ≡ join_host_port (listen_ip cfg.network) (decimal port)
      → port < 65536
      → ((cfg.network ≡ gvisor) × (tunnel_target (guest_ssh_addr m) ≡ ok (guest_ip, pos port)))
        ⊎ ((cfg.network ≡ tsi) × (guest_ssh_addr m ≡ m.ssh_info.host_ssh_proxy_listen_addr))
  unfolding guest_ssh_addr tunnel_target
  guest_ssh_addr-IsBuilt port listens small = elim b.ssh.known_mode [
    | inl g ↦
        let split : split_host_port m.ssh_info.guest_ssh_server_listen_addr
            ≡ ok (listen_ip cfg.network, decimal port) =
          rw listens (split_listen_ip cfg.network port) in
        inl (
          g,
          rw
              (
                at_gvisor m.virtual_network_mode (b.network ∙ g),
                split,
                split_guest_ip port,
                scan_int-decimal port small,
              )
              refl,
        )
    | inr t ↦
        let here = at_tsi cfg.network t in
        let there = at_tsi m.virtual_network_mode (b.network ∙ t) in
        inr (t, rw there.0 (sym (b.ssh.proxied ∙ rw here.1 refl)))
  ]
