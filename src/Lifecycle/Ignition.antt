-- ===== src/Lifecycle/Ignition.antt =====
-- pkg/service/ignition/server.go: the requests by which the guest tells the host what is ready. A
-- handler returns the status that it writes.
pub mod Laws
pub mod Server
pub mod ServerLaws
use ovm_next.Base.{
  Text, codes, ◌==◌, ℕ, Bool, true, false, not, ◌&&◌, ◌||◌, List, [], ◌∷◌, if◌then◌else◌,
}
use ovm_next.Lifecycle.Readiness.{
  Readiness, signal_ssh_ready, signal_podman_ready, signal_vnet_host_ready, signal_vnet_guest_ready,
}
use ovm_next.Define.{gvisor, tsi}

abbrev pub service_ssh : Text
service_ssh = codes "ssh"

abbrev pub service_podman : Text
service_podman = codes "podman"

abbrev pub service_guest_network : Text
service_guest_network = codes "guest-network"

-- `handleHealth`
unfoldable pub handle_health : Text → ℕ
handle_health method = if not (method == codes "GET") then 405 else 200

-- A request to /ready/{service}.
pub record Request : Type 0 where
  pub method : Text
  pub service : Text

abbrev signalled : Readiness × Bool → Readiness × ℕ
signalled (r, first) = (r, 200)

-- `handleReady`
unfoldable pub handle_ready : Request → Readiness → Readiness × ℕ
handle_ready req r =
    if not (req.method == codes "POST")
    then (r, 405)
    else if req.service == service_ssh
    then signalled (signal_ssh_ready r)
    else if req.service == service_podman
    then signalled (signal_podman_ready r)
    else if req.service == service_guest_network
    then signalled (signal_vnet_guest_ready r)
    else (r, 404)

-- Requests in the order in which their signals take effect.
unfoldable pub serve : List Request → Readiness → Readiness
serve [] r = r
serve (req ∷ reqs) r = serve reqs (handle_ready req r).0

-- `waitVirtualNetworkOnline`, where `online` is whether gvproxy answered before the timeout: the
-- readiness behind it, and whether it returned no error.
unfoldable pub wait_virtual_network_online : Text → Bool → Readiness → Readiness × Bool
wait_virtual_network_online mode online r =
    if mode == tsi
    then ((signal_vnet_host_ready r).0, true)
    else if mode == gvisor
    then (if online then (signal_vnet_host_ready r).0 else r, online)
    else (r, false)
