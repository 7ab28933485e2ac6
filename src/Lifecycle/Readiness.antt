-- ===== src/Lifecycle/Readiness.antt =====
-- pkg/define/readiness.go: four channels that are closed at most once. A channel is known by whether
-- it is closed; a `sync.Once` is spent exactly when its channel is closed, since nothing else closes it.
use ovm_next.Base.{Bool, true, false, not}

pub record Readiness : Type 0 where
  pub ssh : Bool
  pub podman : Bool
  pub vnet_host : Bool
  pub vnet_guest : Bool

-- `NewReadiness`
abbrev pub new_readiness : Readiness
new_readiness = record { ssh = false; podman = false; vnet_host = false; vnet_guest = false }

-- `SignalSSHReady`; like the next three it returns whether this was the first call.
unfoldable pub signal_ssh_ready : Readiness → Readiness × Bool
signal_ssh_ready r = (record r { ssh = true }, not r.ssh)

-- `SignalPodmanAPIProxyReady`
unfoldable pub signal_podman_ready : Readiness → Readiness × Bool
signal_podman_ready r = (record r { podman = true }, not r.podman)

-- `SignalVNetHostReady`
unfoldable pub signal_vnet_host_ready : Readiness → Readiness × Bool
signal_vnet_host_ready r = (record r { vnet_host = true }, not r.vnet_host)

-- `SignalVNetGuestReady`
unfoldable pub signal_vnet_guest_ready : Readiness → Readiness × Bool
signal_vnet_guest_ready r = (record r { vnet_guest = true }, not r.vnet_guest)
