-- ===== src/Lifecycle/Monitor/Laws.antt =====
-- Which events the readiness monitor emits.
use ovm_next.Base.{
  ℕ, ◌+◌, Bool, true, false, not, ◌&&◌, List, [], ◌∷◌, ◌≡◌, refl, arith, Bool-cases, inl, inr,
}
use ovm_next.Lifecycle.Readiness.{
  Readiness, new_readiness, signal_ssh_ready, signal_podman_ready, signal_vnet_host_ready,
  signal_vnet_guest_ready,
}
use ovm_next.Lifecycle.Monitor.{
  Event, Monitor, new_monitor, on_podman, on_ssh, on_network, Reaches, podman_ready, ssh_ready,
  network_ready,
}

abbrev pub same_event : Event → Event → Bool
same_event podman_ready podman_ready = true
same_event ssh_ready ssh_ready = true
same_event network_ready network_ready = true
same_event _ _ = false

abbrev pub bit : Bool → ℕ
bit true = 1
bit false = 0

abbrev pub times : Event → List Event → ℕ
times e [] = 0
times e (f ∷ fs) = bit (same_event e f) + times e fs

-- An event was emitted once if its flag is set, and only for a channel that is closed; the flag of
-- Podman is set from the start where Podman is not expected.
pub record IsFaithful (expect_podman : Bool) (r : Readiness) (m : Monitor) : Type 0 where
  pub podman_times : times podman_ready m.emitted ≡ bit (expect_podman && m.podman)
  pub ssh_times : times ssh_ready m.emitted ≡ bit m.ssh
  pub network_times : times network_ready m.emitted ≡ bit m.network
  pub podman_closed : expect_podman ≡ true → m.podman ≡ true → r.podman ≡ true
  pub ssh_closed : m.ssh ≡ true → r.ssh ≡ true
  pub network_closed : m.network ≡ true → r.vnet_host ≡ true
  pub podman_unexpected : expect_podman ≡ false → m.podman ≡ true

module _ (e : Bool) (r : Readiness) (m : Monitor) (f : IsFaithful e r m) where
  on_ssh_seen : m.ssh ≡ true → on_ssh m ≡ m
  unfolding on_ssh
  on_ssh_seen h = rw h refl

  on_ssh_new : m.ssh ≡ false → on_ssh m ≡ record m { ssh = true; emitted = ssh_ready ∷ m.emitted }
  unfolding on_ssh
  on_ssh_new h = rw h refl

  on_ssh-IsFaithful : r.ssh ≡ true → IsFaithful e r (on_ssh m)
  on_ssh-IsFaithful closed = elim (Bool-cases m.ssh) [
    | inl h ↦ rw (on_ssh_seen h) f
    | inr h ↦
        let fresh : times ssh_ready m.emitted ≡ 0 = rw h at f.ssh_times in
        rw (on_ssh_new h) record {
          podman_times = omega (arith, f.podman_times);
          ssh_times = omega arith;
          network_times = omega (arith, f.network_times);
          podman_closed = f.podman_closed;
          ssh_closed = λ _. closed;
          network_closed = f.network_closed;
          podman_unexpected = f.podman_unexpected;
        }
  ]

  on_network_seen : m.network ≡ true → on_network m ≡ m
  unfolding on_network
  on_network_seen h = rw h refl

  on_network_new :
      m.network ≡ false
      → on_network m ≡ record m { network = true; emitted = network_ready ∷ m.emitted }
  unfolding on_network
  on_network_new h = rw h refl

  on_network-IsFaithful : r.vnet_host ≡ true → IsFaithful e r (on_network m)
  on_network-IsFaithful closed = elim (Bool-cases m.network) [
    | inl h ↦ rw (on_network_seen h) f
    | inr h ↦
        let fresh : times network_ready m.emitted ≡ 0 = rw h at f.network_times in
        rw (on_network_new h) record {
          podman_times = omega (arith, f.podman_times);
          ssh_times = omega (arith, f.ssh_times);
          network_times = omega arith;
          podman_closed = f.podman_closed;
          ssh_closed = f.ssh_closed;
          network_closed = λ _. closed;
          podman_unexpected = f.podman_unexpected;
        }
  ]

  on_podman_seen : (e && not m.podman) ≡ false → on_podman e m ≡ m
  unfolding on_podman
  on_podman_seen h = rw h refl

  on_podman_new :
      (e && not m.podman) ≡ true
      → on_podman e m ≡ record m { podman = true; emitted = podman_ready ∷ m.emitted }
  unfolding on_podman
  on_podman_new h = rw h refl

  on_podman-IsFaithful : r.podman ≡ true → IsFaithful e r (on_podman e m)
  on_podman-IsFaithful closed = elim (Bool-cases (e && not m.podman)) [
    | inr h ↦ rw (on_podman_seen h) f
    | inl h ↦
        let k : e ≡ true = ground arith in
        let l : m.podman ≡ false = ground arith in
        let fresh : times podman_ready m.emitted ≡ 0 = rw (k, l) at f.podman_times in
        rw (on_podman_new h) record {
          podman_times = rw k (omega arith);
          ssh_times = omega (arith, f.ssh_times);
          network_times = omega (arith, f.network_times);
          podman_closed = λ _ _. closed;
          ssh_closed = f.ssh_closed;
          network_closed = f.network_closed;
          podman_unexpected = λ _. refl;
        }
  ]

  on_signal :
      (r' : Readiness)
      → (r.podman ≡ true → r'.podman ≡ true)
      → (r.ssh ≡ true → r'.ssh ≡ true)
      → (r.vnet_host ≡ true → r'.vnet_host ≡ true)
      → IsFaithful e r' m
  on_signal r' p s n = record {
    podman_times = f.podman_times;
    ssh_times = f.ssh_times;
    network_times = f.network_times;
    podman_closed = λ h k. p (f.podman_closed h k);
    ssh_closed = λ h. s (f.ssh_closed h);
    network_closed = λ h. n (f.network_closed h);
    podman_unexpected = f.podman_unexpected;
  }

start-IsFaithful : (e : Bool) → IsFaithful e new_readiness (new_monitor e)
start-IsFaithful true = record {
  podman_times = refl;
  ssh_times = refl;
  network_times = refl;
  podman_closed = λ _ h. cc;
  ssh_closed = λ h. cc;
  network_closed = λ h. cc;
  podman_unexpected = λ h. cc;
}
start-IsFaithful false = record {
  podman_times = refl;
  ssh_times = refl;
  network_times = refl;
  podman_closed = λ h _. cc;
  ssh_closed = λ h. cc;
  network_closed = λ h. cc;
  podman_unexpected = λ _. refl;
}

-- In every state that is reached, in whatever order the channels close and rounds take them, each
-- event was emitted once if its flag is set and not at all otherwise, Podman's only where it is
-- expected, and a flag is set only for a channel that is closed.
pub Reaches-IsFaithful : {e : Bool} {r : Readiness} {m : Monitor} → Reaches e r m → IsFaithful e r m
unfolding signal_ssh_ready signal_podman_ready signal_vnet_host_ready signal_vnet_guest_ready
Reaches-IsFaithful {e} Reaches.start = start-IsFaithful e
Reaches-IsFaithful (Reaches.ssh_closed q) =
    on_signal _ _ _ (Reaches-IsFaithful q) _ (λ h. h) (λ _. refl) (λ h. h)
Reaches-IsFaithful (Reaches.podman_closed q) =
    on_signal _ _ _ (Reaches-IsFaithful q) _ (λ _. refl) (λ h. h) (λ h. h)
Reaches-IsFaithful (Reaches.vnet_host_closed q) =
    on_signal _ _ _ (Reaches-IsFaithful q) _ (λ h. h) (λ h. h) (λ _. refl)
Reaches-IsFaithful (Reaches.vnet_guest_closed q) =
    on_signal _ _ _ (Reaches-IsFaithful q) _ (λ h. h) (λ h. h) (λ h. h)
Reaches-IsFaithful (Reaches.podman_round q _ closed) =
    on_podman-IsFaithful _ _ _ (Reaches-IsFaithful q) closed
Reaches-IsFaithful (Reaches.ssh_round q _ closed) =
    on_ssh-IsFaithful _ _ _ (Reaches-IsFaithful q) closed
Reaches-IsFaithful (Reaches.network_round q _ closed) =
    on_network-IsFaithful _ _ _ (Reaches-IsFaithful q) closed
