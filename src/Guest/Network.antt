-- ===== src/Guest/Network.antt =====
-- The network of the guest: cmd/guest-agent/pkg/service/network.go and
-- cmd/guest-agent/pkg/network/dhclient_linux.go.
use ovm_next.Base.{
  ℕ, zero, suc, Text, codes, ◌==◌, if◌then◌else◌, Bool, true, false, Option, none, some, Result, ok,
  err,
}
use ovm_next.Base.Action.{Action, ◌>>=◌, fail, try}
use ovm_next.FilePath.{dir}
use ovm_next.Define.{gvisor, tsi}
use ovm_next.Guest.Polling.{Polled, found, ended, exhausted, retry}
use ovm_next.Guest.System.{System, drop}

pub data NetworkError : Type 0 where
  no_resolver no_marker_dir no_marker no_interface no_client cancelled : NetworkError
  no_lease bad_lease not_applied out_of_fuel : NetworkError
  unsupported : Text → NetworkError

abbrev pub machine_marker : Text
machine_marker = codes "/etc/containers/podman-machine"

abbrev pub eth0 : Text
eth0 = codes "eth0"

-- `attempts`
abbrev pub lease_attempts : ℕ
lease_attempts = 3

module _ {W : Type 0} (sys : System W) where
  abbrev pub upped : Text → W × Bool → W × Option (Unit {0})
  upped name (w, false) = (w, none)
  upped name (w, true) = (w, if sys.find_interface name w then some tt else none)

  -- `bringInterfaceUpFast`
  unfoldable pub bring_interface_up : Text → W → W × Option (Unit {0})
  bring_interface_up name w =
      if sys.find_link name w then upped name (sys.set_link_up name w) else (w, none)

  abbrev pub up : W × Polled (Unit {0}) → W × Result NetworkError (Unit {0})
  up (w, found _) = (w, ok tt)
  up (w, ended) = (w, err no_interface)
  up (w, exhausted) = (w, err out_of_fuel)

  -- `waitInterfaceUp`
  unfoldable pub wait_interface_up : Text → ℕ → Action NetworkError W (Unit {0})
  wait_interface_up name fuel w = up (retry sys.tick (bring_interface_up name) fuel w)

  abbrev pub conversed : Option Text → Result NetworkError Text
  conversed none = err bad_lease
  conversed (some conf) = ok conf

  -- The result of a request, or of what comes behind it.
  abbrev pub leased : W × Option Text → W × Result NetworkError Text → W × Result NetworkError Text
  leased (w, some lease) rest = (w, conversed (sys.conversation lease))
  leased (w, none) rest = rest

  -- The loop of `dhclient4`, which counts its attempts down
  unfoldable pub request_loop : ℕ → W → W × Result NetworkError Text
  request_loop zero w = (w, err no_lease)
  request_loop (suc attempts) w =
      let v = (sys.tick w).0 in
      let rest = request_loop attempts (sys.request_lease v).0 in
      if (sys.tick w).1 then leased (sys.request_lease v) rest else (v, err cancelled)

  -- `defer client.Close()`
  abbrev pub released : W × Result NetworkError Text → W × Result NetworkError Text
  released (w, r) = (sys.close_dhcp w, r)

  abbrev pub opened_dhcp : ℕ → W × Bool → W × Result NetworkError Text
  opened_dhcp attempts (w, false) = (w, err no_client)
  opened_dhcp attempts (w, true) = released (request_loop attempts w)

  -- `dhclient4`
  unfoldable pub dhclient4 : Text → ℕ → Action NetworkError W Text
  dhclient4 name attempts w = opened_dhcp attempts (sys.open_dhcp name w)

  -- `DHClient4`
  unfoldable pub dh_client4 : Text → ℕ → ℕ → Action NetworkError W (Unit {0})
  dh_client4 name attempts fuel = do
    _ ← wait_interface_up name fuel
    conf ← dhclient4 name attempts
    try not_applied (sys.configure_interface name conf)

  -- `ConfigureNetwork`
  unfoldable pub configure_network : Text → ℕ → Action NetworkError W (Unit {0})
  configure_network mode fuel =
      if mode == tsi
      then (λ w.
          try no_resolver
            (sys.write_file (codes "/etc/resolv.conf") (codes "nameserver 1.1.1.1") 0o644)
            (drop sys machine_marker w))
      else if mode == gvisor
      then (do
        _ ← try no_marker_dir (sys.make_dir (dir machine_marker) 0o755)
        _ ← try no_marker (sys.write_file machine_marker (codes "applehv") 0o644)
        dh_client4 eth0 lease_attempts fuel)
      else fail (unsupported mode)

-- `GetVirtualNetworkType` of cmd/guest-agent/pkg/machine/common.go
unfoldable pub virtual_network_type : Text → Text
virtual_network_type mode = if mode == tsi then tsi else gvisor
