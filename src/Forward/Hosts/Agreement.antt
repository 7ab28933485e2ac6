-- ===== src/Forward/Hosts/Agreement.antt =====
-- A connection in the guest reaches the host socket of its rule.
use ovm_next.Base.{
  ℕ, zero, suc, ◌+◌, ◌≤◌, ◌<◌, eqb_refl, Text, List, [], ◌∷◌, map, some, ok, ◌≡◌, refl, sym, ap,
  ◌∙◌, subst, All, arith, length,
}
use mathlib.Core.List.{Permᴰ}
use ovm_next.Forward.Rules.{Rules, HasDistinctKeys}
use ovm_next.Forward.Routes.{Route, build_routes, base_port, u32_limit}
use ovm_next.Forward.Routes.Laws.{consecutive, entry}
use ovm_next.Forward.Routes.Properties.{build_routes-IsRouting, build_routes_of_perm}
use ovm_next.Forward.Hosts.{
  ForwardRule, build_unix_forward_rules, rules_of, start_unix_forwarders, ports_of, setup_vsock,
  reached,
}

abbrev port_table : List Route → List (ℕ × Text)
port_table = map (λ route. (route.vsock_port, route.host_path))

-- The guest socket's rule leads to its own host socket.
abbrev pub IsConnected : List (ℕ × Text) → ForwardRule → Type 0
IsConnected ports rule = reached ports rule.vsock_port ≡ some rule.host_path

-- Putting a lower port in front does not hide the others.
weaken :
    (p : ℕ) (path : Text) (ports : List (ℕ × Text)) (rules : List ForwardRule)
    → All (λ (rule : ForwardRule). p < rule.vsock_port) rules
    → All (IsConnected ports) rules
    → All (IsConnected ((p, path) ∷ ports)) rules
weaken p path ports [] above h = tt
weaken p path ports (rule ∷ rules) (low, above) (c, h) =
    (ground (arith, c), weaken p path ports rules above h)

above-consecutive :
    (k n : ℕ) (routes : List Route)
    → map (λ (r : Route). r.vsock_port) routes ≡ consecutive k n
    → (low : ℕ) → low < k
    → All (λ (rule : ForwardRule). low < rule.vsock_port) (build_unix_forward_rules routes)
unfolding build_unix_forward_rules
above-consecutive k n [] e low h = tt
above-consecutive k zero (r ∷ routes) e low h = cc
above-consecutive k (suc n) (r ∷ routes) e low h =
    let here : r.vsock_port ≡ k = cc in
    let there : map (λ (r : Route). r.vsock_port) routes ≡ consecutive (k + 1) n = cc in
    (omega arith, above-consecutive (k + 1) n routes there low (omega arith))

connected :
    (k n : ℕ) (routes : List Route)
    → map (λ (r : Route). r.vsock_port) routes ≡ consecutive k n
    → All (IsConnected (port_table routes)) (build_unix_forward_rules routes)
unfolding build_unix_forward_rules
connected k n [] e = tt
connected k zero (r ∷ routes) e = cc
connected k (suc n) (r ∷ routes) e =
    let here : r.vsock_port ≡ k = cc in
    let there : map (λ (r : Route). r.vsock_port) routes ≡ consecutive (k + 1) n = cc in
    (
      rw (eqb_refl r.vsock_port) refl,
      weaken r.vsock_port r.host_path (port_table routes) (build_unix_forward_rules routes)
          (above-consecutive (k + 1) n routes there r.vsock_port (omega arith))
          (connected (k + 1) n routes there),
    )

start_unix_forwarders_lem : (m : Rules) → start_unix_forwarders m ≡ rules_of (build_routes m)
unfolding start_unix_forwarders build_routes build_unix_forward_rules
start_unix_forwarders_lem [] = refl
start_unix_forwarders_lem (rule ∷ rules) = refl

setup_vsock-build_routes :
    (m : Rules) (rs : List Route) → build_routes m ≡ ok rs → setup_vsock m ≡ ok (port_table rs)
unfolding setup_vsock
setup_vsock-build_routes m rs e = ap ports_of e

rules-entries :
    (rs : List Route)
    → map (λ (rule : ForwardRule). (rule.guest_path, rule.host_path)) (build_unix_forward_rules rs)
      ≡ map entry rs
unfolding build_unix_forward_rules
rules-entries [] = refl
rules-entries (r ∷ rs) = ap (◌∷◌ (r.guest_path, r.host_path)) (rules-entries rs)

-- If host and guest hold the same rules, in whatever order their maps hand them out, with distinct
-- guest paths and no more of them than ports, then the host sets up its ports, the guest serves each
-- rule once, and every connection to a guest socket reaches the host socket of its rule.
pub setup_vsock-start_unix_forwarders :
    (m m' : Rules)
    → Permᴰ m m'
    → HasDistinctKeys m
    → base_port + length m ≤ u32_limit
    → (ports : List (ℕ × Text)) × (setup_vsock m ≡ ok ports)
      × All (IsConnected ports) (start_unix_forwarders m')
      × Permᴰ
          (map
            (λ (rule : ForwardRule). (rule.guest_path, rule.host_path))
            (start_unix_forwarders m'))
          m
setup_vsock-start_unix_forwarders m m' p d h =
    let (rs, made, routing) = build_routes-IsRouting m d h in
    let served : start_unix_forwarders m' ≡ build_unix_forward_rules rs =
      (start_unix_forwarders_lem m' ∙ ap rules_of (sym (build_routes_of_perm p d) ∙ made)) in
    (
      port_table rs,
      setup_vsock-build_routes m rs made,
      subst (λ rules. All (IsConnected (port_table rs)) rules) (sym served)
          (connected base_port (length m) rs routing.ports),
      subst
          (λ rules. Permᴰ (map (λ (rule : ForwardRule). (rule.guest_path, rule.host_path)) rules) m)
          (sym served) (subst (λ l. Permᴰ l m) (sym (rules-entries rs)) routing.entries),
    )
