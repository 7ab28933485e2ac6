-- ===== src/Guest/NetworkLaws.antt =====
-- How often a lease is asked for, and what setting up the network leaves alone.
use ovm_next.Base.{
  ℕ, zero, suc, ◌+◌, ◌≤◌, Text, codes, ◌==◌, if◌then◌else◌, Bool, true, false, Option, none, some,
  Result, ◌≡◌, refl, sym, subst, arith,
}
use ovm_next.FilePath.{dir}
use ovm_next.Define.{gvisor, tsi}
use ovm_next.Guest.System.{System, drop}
use ovm_next.Guest.Polling.{Polled, found, ended, exhausted, retry}
use ovm_next.Guest.Keeping.{
  Keeps, keep_all, keep_bind, keep_try, keep_if, keep_fail, retry_keeps, IsKept,
}
use ovm_next.Guest.Network.{
  NetworkError, not_applied, no_marker_dir, no_marker, no_resolver, unsupported, eth0,
  lease_attempts, machine_marker, upped, bring_interface_up, up, wait_interface_up, leased,
  request_loop, opened_dhcp, dhclient4, dh_client4, configure_network,
}

module _ {W : Type 0} (sys : System W) where
  leased_world :
      (x : W × Option Text) (rest : W × Result NetworkError Text) (Q : W → Type 0)
      → Q x.0
      → Q rest.0
      → Q (leased sys x rest).0
  leased_world (w, some lease) rest Q h k = h
  leased_world (w, none) rest Q h k = k

  if_world :
      {A : Type 0} (b : Bool) (x y : W × A) (Q : W → Type 0)
      → (b ≡ true → Q x.0)
      → Q y.0
      → Q (if b then x else y).0
  if_world true x y Q h k = h refl
  if_world false x y Q h k = k

  -- The documented behaviour of the client, in terms of the requests that it has sent.
  pub record IsCounted (requests : W → ℕ) : Type 0 where
    pub waits : (w : W) → requests (sys.tick w).0 ≡ requests w
    pub opens : (name : Text) (w : W) → requests (sys.open_dhcp name w).0 ≡ requests w
    pub sends : (w : W) → requests (sys.request_lease w).0 ≡ suc (requests w)
    pub shuts : (w : W) → requests (sys.close_dhcp w) ≡ requests w

  module _ (requests : W → ℕ) (laws : IsCounted requests) where
    request_loop-le :
        (attempts : ℕ) (w : W) → requests (request_loop sys attempts w).0 ≤ requests w + attempts
    unfolding request_loop
    request_loop-le zero w = omega arith
    request_loop-le (suc attempts) w =
        let v = (sys.tick w).0 in
        let u = (sys.request_lease v).0 in
        let Q = λ (x : W). requests x ≤ requests w + suc attempts in
        if_world (sys.tick w).1 _ _ Q
          (λ on.
            leased_world (sys.request_lease v) _ Q (omega (arith, laws.waits w, laws.sends v))
              (omega (arith, laws.waits w, laws.sends v, request_loop-le attempts u)))
          (omega (arith, laws.waits w))

    opened_dhcp-le :
        (attempts before : ℕ) (x : W × Bool)
        → requests x.0 ≡ before
        → requests (opened_dhcp sys attempts x).0 ≤ before + attempts
    opened_dhcp-le attempts before (w, false) e = omega arith
    opened_dhcp-le attempts before (w, true) e =
        omega (arith, laws.shuts (request_loop sys attempts w).0, request_loop-le attempts w)

    -- However the DHCP server answers, and without any fuel, the client of the guest returns after
    -- at most as many requests as it has attempts.
    pub dhclient4-le :
        (name : Text) (attempts : ℕ) (w : W)
        → requests (dhclient4 sys name attempts w).0 ≤ requests w + attempts
    unfolding dhclient4
    dhclient4-le name attempts w =
        opened_dhcp-le attempts (requests w) (sys.open_dhcp name w) (laws.opens name w)

  module _ (Q : W → Type 0) (kept : IsKept Q sys) where
    upped_keeps : (name : Text) (x : W × Bool) → Q x.0 → Q (upped sys name x).0
    upped_keeps name (w, true) q = q
    upped_keeps name (w, false) q = q

    bring_interface_up_keeps : (name : Text) (w : W) → Q w → Q (bring_interface_up sys name w).0
    unfolding bring_interface_up
    bring_interface_up_keeps name w q =
        if_world (sys.find_link name w) _ _ Q
          (λ _. upped_keeps name (sys.set_link_up name w) (kept.set_link_up name w q)) q

    request_loop_keeps : (attempts : ℕ) (w : W) → Q w → Q (request_loop sys attempts w).0
    unfolding request_loop
    request_loop_keeps zero w q = q
    request_loop_keeps (suc attempts) w q =
        let q₁ = kept.tick w q in
        let q₂ = kept.request_lease (sys.tick w).0 q₁ in
        if_world (sys.tick w).1 _ _ Q
          (λ _.
            leased_world (sys.request_lease (sys.tick w).0) _ Q q₂
              (request_loop_keeps attempts (sys.request_lease (sys.tick w).0).0 q₂))
          q₁

    opened_dhcp_keeps : (attempts : ℕ) (x : W × Bool) → Q x.0 → Q (opened_dhcp sys attempts x).0
    opened_dhcp_keeps attempts (w, false) q = q
    opened_dhcp_keeps attempts (w, true) q =
        kept.close_dhcp (request_loop sys attempts w).0 (request_loop_keeps attempts w q)

    up_world : (x : W × Polled (Unit {0})) → (up sys x).0 ≡ x.0
    up_world (w, found _) = refl
    up_world (w, ended) = refl
    up_world (w, exhausted) = refl

    wait_interface_up-Keeps : (name : Text) (fuel : ℕ) → Keeps Q (wait_interface_up sys name fuel)
    unfolding wait_interface_up
    wait_interface_up-Keeps name fuel = keep_all Q _ λ w q.
        subst Q (sym (up_world (retry sys.tick (bring_interface_up sys name) fuel w))) (
          retry_keeps Q sys.tick (bring_interface_up sys name) kept.tick
            (bring_interface_up_keeps name) fuel w q)

    dhclient4-Keeps : (name : Text) (attempts : ℕ) → Keeps Q (dhclient4 sys name attempts)
    unfolding dhclient4
    dhclient4-Keeps name attempts =
        keep_all Q _
          λ w q. opened_dhcp_keeps attempts (sys.open_dhcp name w) (kept.open_dhcp name w q)

    dh_client4-Keeps :
        (name : Text) (attempts fuel : ℕ) → Keeps Q (dh_client4 sys name attempts fuel)
    unfolding dh_client4
    dh_client4-Keeps name attempts fuel = keep_bind Q _ _ (wait_interface_up-Keeps name fuel) λ _.
        keep_bind Q _ _ (dhclient4-Keeps name attempts)
          λ conf. keep_try Q not_applied _ (kept.configure_interface name conf)

    resolver_call : W → W × Bool
    resolver_call w =
        sys.write_file (codes "/etc/resolv.conf") (codes "nameserver 1.1.1.1") 0o644
          (drop sys machine_marker w)

    resolver_call_keeps : (w : W) → Q w → Q (resolver_call w).0
    unfolding resolver_call
    resolver_call_keeps w q =
        kept.write_file (codes "/etc/resolv.conf") (codes "nameserver 1.1.1.1") 0o644
          (drop sys machine_marker w) (kept.remove machine_marker w q)

    pub configure_network-Keeps :
        (mode : Text) (fuel : ℕ) → Keeps Q (configure_network sys mode fuel)
    unfolding configure_network resolver_call
    configure_network-Keeps mode fuel =
        keep_if Q (mode == tsi) _ _ (keep_try Q no_resolver resolver_call resolver_call_keeps) (
          keep_if Q (mode == gvisor) _ _
            (keep_bind Q _ _ (keep_try Q no_marker_dir _ (kept.make_dir (dir machine_marker) 0o755))
              λ _.
                keep_bind Q _ _
                  (keep_try Q no_marker _ (kept.write_file machine_marker (codes "applehv") 0o644))
                  λ _. dh_client4-Keeps eth0 lease_attempts fuel)
            (keep_fail Q (unsupported mode)))
