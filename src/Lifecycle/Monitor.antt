-- ===== src/Lifecycle/Monitor.antt =====
-- `monitorReadinessEvents` of pkg/librevm/vm.go as a step relation: the readiness channels are closed
-- by others at any time, and a round of the loop takes any channel that is closed.
pub mod Laws
use ovm_next.Base.{ℕ, Bool, true, false, not, ◌&&◌, List, [], ◌∷◌, if◌then◌else◌, ◌≡◌}
use ovm_next.Lifecycle.Readiness.{
  Readiness, new_readiness, signal_ssh_ready, signal_podman_ready, signal_vnet_host_ready,
  signal_vnet_guest_ready,
}

pub data Event : Type 0 where
  podman_ready ssh_ready network_ready : Event

-- The local variables of the loop, and the events that it emitted, the last one first.
pub record Monitor : Type 0 where
  pub podman : Bool
  pub ssh : Bool
  pub network : Bool
  pub emitted : List Event

abbrev pub new_monitor : Bool → Monitor
new_monitor expect_podman = record {
  podman = not expect_podman;
  ssh = false;
  network = false;
  emitted = [];
}

abbrev pub is_done : Monitor → Bool
is_done m = m.podman && m.ssh && m.network

unfoldable pub on_podman : Bool → Monitor → Monitor
on_podman expect_podman m =
    if expect_podman && not m.podman
    then record m { podman = true; emitted = Event.podman_ready ∷ m.emitted }
    else m

unfoldable pub on_ssh : Monitor → Monitor
on_ssh m = if not m.ssh then record m { ssh = true; emitted = Event.ssh_ready ∷ m.emitted } else m

unfoldable pub on_network : Monitor → Monitor
on_network m =
    if not m.network
    then record m { network = true; emitted = Event.network_ready ∷ m.emitted }
    else m

-- The states that the machine's channels and the loop reach together.
pub data Reaches (expect_podman : Bool) : Readiness → Monitor → Type 0 where
  start : Reaches expect_podman new_readiness (new_monitor expect_podman)
  ssh_closed :
      {r : Readiness} {m : Monitor}
      → Reaches expect_podman r m
      → Reaches expect_podman (signal_ssh_ready r).0 m
  podman_closed :
      {r : Readiness} {m : Monitor}
      → Reaches expect_podman r m
      → Reaches expect_podman (signal_podman_ready r).0 m
  vnet_host_closed :
      {r : Readiness} {m : Monitor}
      → Reaches expect_podman r m
      → Reaches expect_podman (signal_vnet_host_ready r).0 m
  vnet_guest_closed :
      {r : Readiness} {m : Monitor}
      → Reaches expect_podman r m
      → Reaches expect_podman (signal_vnet_guest_ready r).0 m
  podman_round :
      {r : Readiness} {m : Monitor}
      → Reaches expect_podman r m
      → is_done m ≡ false
      → r.podman ≡ true
      → Reaches expect_podman r (on_podman expect_podman m)
  ssh_round :
      {r : Readiness} {m : Monitor}
      → Reaches expect_podman r m
      → is_done m ≡ false
      → r.ssh ≡ true
      → Reaches expect_podman r (on_ssh m)
  network_round :
      {r : Readiness} {m : Monitor}
      → Reaches expect_podman r m
      → is_done m ≡ false
      → r.vnet_host ≡ true
      → Reaches expect_podman r (on_network m)
