-- ===== src/Guest/Timing.antt =====
-- The checks of the guest return: each waits in the one context of `WaitGuestServiceReady`, which ends.
use ovm_next.Base.{
  ℕ, ◌≤◌, ◌<◌, Text, codes, ◌==◌, Bool, true, false, if◌then◌else◌, Option, none, some, Result, ok,
  err, ◌≡◌, ◌≢◌, ap, arith,
}
use ovm_next.Base.Action.{continue, >>=-eq}
use ovm_next.Define.{gvisor, tsi}
use ovm_next.Build.Spec.{Machine}
use ovm_next.Http.Client.{Request, Response, HttpError, build_url, answered, do_request, status_of}
use ovm_next.Guest.Polling.{Polled, found, ended, exhausted, poll, IsEnding, Settles, poll-Settles}
use ovm_next.Guest.Readiness.{
  Prober, ready_request, try_ssh, try_podman, try_interface, without_key, keyed, is_ssh_ready,
  is_podman_ready, is_interface_ready, accepted, post_ready, announced,
}

module _ {W : Type 0} (left : W → ℕ) where
  -- It did not run out of fuel, and no tick came back.
  pub record IsReturned (n : ℕ) (x : W × Polled (Unit {0})) : Type 0 where
    pub returns : x.1 ≢ exhausted
    pub spends : left x.0 ≤ n

  module _ (tick : W → W × Bool) (attempt : W → W × Option (Unit {0})) where
    settled-IsReturned :
        (n : ℕ) {x : W × Polled (Unit {0})}
        → Settles tick attempt (λ v a. left v ≤ n) (λ v. left v ≤ n) x
        → IsReturned n x
    settled-IsReturned n (Settles.finds h) = record { returns = λ e. cc; spends = h }
    settled-IsReturned n (Settles.ends h) = record { returns = λ e. cc; spends = h }

    poll-IsReturned :
        (fuel : ℕ) (w : W)
        → IsEnding tick attempt left
        → ((v : W) → left (tick v).0 ≤ left v)
        → left w < fuel
        → IsReturned (left w) (poll tick attempt fuel w)
    poll-IsReturned fuel w ending waits h = settled-IsReturned (left w) (
        poll-Settles tick attempt left ending (λ v a. left v ≤ left w) (λ v. left v ≤ left w)
          (λ v q. omega (arith, q, waits v))
          (λ u v a q e.
            let same : left (attempt u).0 ≡ left v =
              ap (λ (x : W × Option (Unit {0})). left x.0) e in
            omega (arith, q, ending.attempts u, same))
          (λ v q. omega (arith, q, ending.attempts v)) fuel w h (omega arith))

module _ {W : Type 0} (guest : Prober W) (m : Machine) (left : W → ℕ) where
  -- Each tick uses up some of what is left of the context, and no call adds to it.
  pub record IsTimed : Type 0 where
    pub ssh : IsEnding guest.tick (try_ssh guest m) left
    pub podman : IsEnding guest.tick (try_podman guest m) left
    pub waits : (w : W) → left (guest.tick w).0 ≤ left w
    pub writes : (p s : Text) (w : W) → left (guest.write_file p s w).0 ≤ left w
    pub removes : (p : Text) (w : W) → left (guest.remove_file p w) ≤ left w
    pub exchanges :
        (r : Request) (url : Text) (w : W) → left (guest.net.exchange r url w).0 ≤ left w
    pub closes : (id : ℕ) (w : W) → left (guest.net.close_body id w) ≤ left w

  module _ (timed : IsTimed) (fuel : ℕ) where
    keyed-IsReturned :
        (n : ℕ) (r : W × Bool) → left r.0 ≤ n → n < fuel → IsReturned left n (keyed guest m fuel r)
    keyed-IsReturned n (w, false) h k = record { returns = λ e. cc; spends = h }
    keyed-IsReturned n (w, true) h k =
        let r =
          poll-IsReturned left guest.tick (try_ssh guest m) fuel w timed.ssh timed.waits
            (omega (arith, h, k)) in
        record { returns = r.returns; spends = omega (arith, r.spends, h) }

    without_key-IsReturned :
        (n : ℕ) (x : W × Polled (Unit {0}))
        → IsReturned left n x
        → IsReturned left n (without_key guest m x)
    without_key-IsReturned n (w, x) h = record {
      returns = h.returns;
      spends = omega (arith, h.spends, timed.removes _ w);
    }

    pub is_ssh_ready-IsReturned :
        (w : W) → left w < fuel → IsReturned left (left w) (is_ssh_ready guest m fuel w)
    unfolding is_ssh_ready
    is_ssh_ready-IsReturned w h =
        without_key-IsReturned (left w) _ (keyed-IsReturned (left w) _ (timed.writes _ _ w) h)

    pub is_podman_ready-IsReturned :
        (w : W) → left w < fuel → IsReturned left (left w) (is_podman_ready guest m fuel w)
    unfolding is_podman_ready
    is_podman_ready-IsReturned w h =
        poll-IsReturned left guest.tick (try_podman guest m) fuel w timed.podman timed.waits h

    interface-IsEnding : (name : Text) → IsEnding guest.tick (try_interface guest m name) left
    unfolding try_interface
    interface-IsEnding name = record { ticks = timed.ssh.ticks; attempts = λ w. omega arith }

    if-IsReturned :
        (n : ℕ) (b : Bool) (x y : W × Polled (Unit {0}))
        → IsReturned left n x
        → IsReturned left n y
        → IsReturned left n (if b then x else y)
    if-IsReturned n true x y h k = h
    if-IsReturned n false x y h k = k

    pub is_interface_ready-IsReturned :
        (w : W) → left w < fuel → IsReturned left (left w) (is_interface_ready guest m fuel w)
    unfolding is_interface_ready
    is_interface_ready-IsReturned w h =
        let polled = λ (name : Text).
          poll-IsReturned left guest.tick (try_interface guest m name) fuel w
            (interface-IsEnding name) timed.waits h in
        let over : IsReturned left (left w) (w, ended) = record {
          returns = λ e. cc;
          spends = omega arith;
        } in
        if-IsReturned (left w) (m.virtual_network_mode == gvisor) _ _ (polled (codes "eth0"))
          (if-IsReturned (left w) (m.virtual_network_mode == tsi) _ _ (polled (codes "lo")) over)

    answered_left : (r : W × Option Response) → left (answered guest.net r).0 ≤ left r.0
    answered_left (w, none) = omega arith
    answered_left (w, some response) = omega arith

    request_left : (r : Request) (w : W) → left (do_request guest.net r w).0 ≤ left w
    unfolding do_request
    request_left r w =
        let h = timed.exchanges r (build_url r) w in
        let k = answered_left (guest.net.exchange r (build_url r) w) in
        go (guest.net.accepts r.method (build_url r))
          (answered guest.net (guest.net.exchange r (build_url r) w)) (omega (arith, h, k))
      where
        go :
            (b : Bool) (x : W × Result HttpError Response)
            → left x.0 ≤ left w
            → left (if b then x else (w, err HttpError.bad_request)).0 ≤ left w
        go true x k = k
        go false x k = omega arith

    continue_left :
        (r : W × Result HttpError Response)
        → left
            (continue r (λ response u. (guest.net.close_body response.id u, ok response.status))).0
          ≤ left r.0
    continue_left (w, err e) = omega arith
    continue_left (w, ok response) = timed.closes response.id w

    accepted_left : (r : W × Result HttpError ℕ) → left (accepted guest.net r).0 ≤ left r.0
    accepted_left (w, err e) = omega arith
    accepted_left (w, ok code) = omega arith

    post_ready_left : (service : Text) (w : W) → left (post_ready guest.net service w).0 ≤ left w
    unfolding post_ready status_of
    post_ready_left service w =
        let r = ready_request service in
        let e =
          >>=-eq (do_request guest.net r)
            (λ response u. (guest.net.close_body response.id u, ok response.status)) w in
        let h₁ = request_left r w in
        let h₂ = continue_left (do_request guest.net r w) in
        let h₃ = accepted_left (status_of guest.net r w) in
        let same = ap (λ (x : W × Result HttpError ℕ). left x.0) e in
        omega (arith, h₁, h₂, h₃, same)

    pub announced_left :
        (service : Text) (x : W × Polled (Unit {0}))
        → left (announced guest.net service x).0 ≤ left x.0
    announced_left service (w, found _) = post_ready_left service w
    announced_left service (w, ended) = omega arith
    announced_left service (w, exhausted) = omega arith
