-- ===== src/Guest/Announcing.antt =====
-- The guest's readiness on the host: `WaitGuestServiceReady` of the guest, with the ignition server of
-- the host at the other end of its connection.
use ovm_next.Base.{
  ℕ, Text, ◌==◌, Bool, true, false, ◌||◌, Result, ok, err, ◌≡◌, ◌≢◌, ◌<◌, refl, ap, ◌∙◌, arith,
}
use ovm_next.Base.Action.{Action, continue, ◌>>=◌, >>=-eq}
use ovm_next.Build.Spec.{Machine}
use ovm_next.Http.Client.{Transport}
use ovm_next.Lifecycle.Readiness.{
  Readiness, signal_ssh_ready, signal_podman_ready, signal_vnet_guest_ready,
}
use ovm_next.Lifecycle.Ignition.{handle_ready, service_ssh, service_podman, service_guest_network}
use ovm_next.Lifecycle.Ignition.Server.{Json}
use ovm_next.Guest.Delivering.{
  closed_by, IsDelivering, IsKnown, ssh-IsKnown, podman-IsKnown, network-IsKnown, delivered,
}
use ovm_next.Guest.Polling.{Polled, found, ended, exhausted}
use ovm_next.Guest.Timing.{
  IsTimed, is_ssh_ready-IsReturned, is_podman_ready-IsReturned, is_interface_ready-IsReturned,
  announced_left,
}
use ovm_next.Guest.Readiness.{
  Prober, ReadyError, announced, announce_all, wait_guest_service_ready, is_ssh_ready,
  is_podman_ready, is_interface_ready,
}

abbrev pub is_found : Polled (Unit {0}) → Bool
is_found (found _) = true
is_found ended = false
is_found exhausted = false

-- The world in which podman is checked, and the one in which the network is.
abbrev pub behind_ssh : {W : Type 0} → Prober W → Machine → ℕ → W → W
behind_ssh guest m fuel w = (announced guest.net service_ssh (is_ssh_ready guest m fuel w)).0

abbrev pub behind_podman : {W : Type 0} → Prober W → Machine → ℕ → W → W
behind_podman guest m fuel w =
    (announced guest.net service_podman
      (is_podman_ready guest m fuel (behind_ssh guest m fuel w))).0

module _ {W : Type 0} (json : Json) (net : Transport W) (host : W → Machine)
    (laws : IsDelivering json net host) where
  -- The step of one service: what it answers, and what it leaves of the host.
  pub record IsStep (service : Text) (ready : Bool) (w : W) (x : W × Result ReadyError (Unit {0}))
      : Type 0 where
    pub succeeds : x.1 ≡ ok tt
    pub leaves :
        host x.0 ≡ record (host w) { readiness = closed_by service ready (host w).readiness }

  announced-IsStep :
      (service : Text) (w : W) (x : W × Polled (Unit {0}))
      → IsKnown json net host service
      → host x.0 ≡ host w
      → x.1 ≢ exhausted
      → IsStep service (is_found x.1) w (announced net service x)
  announced-IsStep service w (v, found _) known same returned =
      let (succeeds, leaves) = delivered json net host laws service v known in
      record {
        succeeds = succeeds;
        leaves =
            leaves
            ∙ ap (λ (m : Machine). record m { readiness = closed_by service true m.readiness })
                same;
      }
  announced-IsStep service w (v, ended) known same returned = record {
    succeeds = refl;
    leaves = same;
  }
  announced-IsStep service w (v, exhausted) known same returned = absurd (returned refl)

  continue-IsStep :
      (service : Text) (ready : Bool) (w : W) (x : W × Result ReadyError (Unit {0}))
      (f : Unit {0} → Action ReadyError W (Unit {0}))
      → IsStep service ready w x
      → continue x f ≡ f tt x.0
  continue-IsStep service ready w (v, ok _) f step = refl
  continue-IsStep service ready w (v, err e) f step = absurd (let h = step.succeeds in cc)

  closed_by_all :
      (s p n : Bool) (r : Readiness)
      → closed_by service_guest_network n (closed_by service_podman p (closed_by service_ssh s r))
        ≡ record r { ssh = r.ssh || s; podman = r.podman || p; vnet_guest = r.vnet_guest || n }
  unfolding handle_ready ◌==◌ signal_ssh_ready signal_podman_ready signal_vnet_guest_ready
  closed_by_all s p n r = ground arith

  -- The world behind the first and behind the second service
  abbrev behind : Text → (W → W × Polled (Unit {0})) → W → W
  behind service check w = (announced net service (check w)).0

  abbrev is_ready : (W → W × Polled (Unit {0})) → W → Bool
  is_ready check w = is_found (check w).1

  announce_all-announces :
      (ssh podman network : W → W × Polled (Unit {0})) (w : W)
      → ((v : W) → host (ssh v).0 ≡ host v)
      → ((v : W) → host (podman v).0 ≡ host v)
      → ((v : W) → host (network v).0 ≡ host v)
      → (ssh w).1 ≢ exhausted
      → (podman (behind service_ssh ssh w)).1 ≢ exhausted
      → (network (behind service_podman podman (behind service_ssh ssh w))).1 ≢ exhausted
      → ((announce_all net ssh podman network w).1 ≡ ok tt)
        × (host (announce_all net ssh podman network w).0 ≡ record (host w) {
          readiness = record (host w).readiness {
            ssh = (host w).readiness.ssh || is_ready ssh w;
            podman = (host w).readiness.podman || is_ready podman (behind service_ssh ssh w);
            vnet_guest =
                (host w).readiness.vnet_guest
                || is_ready network (behind service_podman podman (behind service_ssh ssh w));
          };
        })
  unfolding announce_all
  announce_all-announces ssh podman network w keep_s keep_p keep_n has_s has_p has_n =
      let v = behind service_ssh ssh w in
      let u = behind service_podman podman v in
      let s = is_ready ssh w in
      let p = is_ready podman v in
      let n = is_ready network u in
      let x₁ = announced net service_ssh (ssh w) in
      let step₁ =
        announced-IsStep service_ssh w (ssh w) (ssh-IsKnown json net host laws) (keep_s w) has_s in
      let x₂ = announced net service_podman (podman v) in
      let step₂ =
        announced-IsStep service_podman v (podman v) (podman-IsKnown json net host laws) (keep_p v)
          has_p in
      let step₃ =
        announced-IsStep service_guest_network u (network u) (network-IsKnown json net host laws)
          (keep_n u) has_n in
      let set = λ (m : Machine) (r : Readiness). record m { readiness = r } in
      let e₁ =
        >>=-eq (λ y. announced net service_ssh (ssh y))
          (λ _. (λ y. announced net service_podman (podman y)) >>= λ _ y.
            announced net service_guest_network (network y))
          w
        ∙ continue-IsStep service_ssh s w x₁ _ step₁ in
      let e₂ =
        >>=-eq (λ y. announced net service_podman (podman y))
          (λ _ y. announced net service_guest_network (network y)) v
        ∙ continue-IsStep service_podman p v x₂ _ step₂ in
      rw (e₁, e₂)
        (
          step₃.succeeds,
          step₃.leaves
              ∙ ap
                  (λ (m : Machine). record m {
                    readiness = closed_by service_guest_network n m.readiness;
                  })
                  (step₂.leaves
                    ∙ ap
                        (λ (m : Machine). record m {
                          readiness = closed_by service_podman p m.readiness;
                        })
                        step₁.leaves)
              ∙ ap (set (host w)) (closed_by_all s p n (host w).readiness),
        )

-- Where the ignition server is at the other end of the guest's connection, and the checks leave the
-- machine of the host alone: in a context that ends, with a unit of fuel for each tick that is left,
-- WaitGuestServiceReady succeeds, and closes on the host just the channels of the services that are
-- found ready when it is their turn.
pub wait_guest_service_ready-announces :
    {W : Type 0} (json : Json) (guest : Prober W) (host : W → Machine) (m : Machine) (left : W → ℕ)
    (fuel : ℕ) (w : W)
    → IsDelivering json guest.net host
    → IsTimed guest m left
    → left w < fuel
    → ((v : W) → host (is_ssh_ready guest m fuel v).0 ≡ host v)
    → ((v : W) → host (is_podman_ready guest m fuel v).0 ≡ host v)
    → ((v : W) → host (is_interface_ready guest m fuel v).0 ≡ host v)
    → ((wait_guest_service_ready guest m fuel w).1 ≡ ok tt)
      × (host (wait_guest_service_ready guest m fuel w).0 ≡ record (host w) {
        readiness = record (host w).readiness {
          ssh = (host w).readiness.ssh || is_found (is_ssh_ready guest m fuel w).1;
          podman =
              (host w).readiness.podman
              || is_found (is_podman_ready guest m fuel (behind_ssh guest m fuel w)).1;
          vnet_guest =
              (host w).readiness.vnet_guest
              || is_found (is_interface_ready guest m fuel (behind_podman guest m fuel w)).1;
        };
      })
unfolding wait_guest_service_ready
wait_guest_service_ready-announces json guest host m left fuel w laws timed enough keep_s keep_p
      keep_n =
    let v = behind_ssh guest m fuel w in
    let u = behind_podman guest m fuel w in
    let first = is_ssh_ready-IsReturned guest m left timed fuel w enough in
    let there = announced_left guest m left timed fuel service_ssh (is_ssh_ready guest m fuel w) in
    let enough₁ : left v < fuel = omega (arith, enough, first.spends, there) in
    let second = is_podman_ready-IsReturned guest m left timed fuel v enough₁ in
    let next =
      announced_left guest m left timed fuel service_podman (is_podman_ready guest m fuel v) in
    let enough₂ : left u < fuel = omega (arith, enough₁, second.spends, next) in
    let third = is_interface_ready-IsReturned guest m left timed fuel u enough₂ in
    announce_all-announces json guest.net host laws (is_ssh_ready guest m fuel)
      (is_podman_ready guest m fuel) (is_interface_ready guest m fuel) w keep_s keep_p keep_n
      first.returns second.returns third.returns
