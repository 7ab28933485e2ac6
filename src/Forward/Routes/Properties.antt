-- ===== src/Forward/Routes/Properties.antt =====
-- The routes of a set of rules: pkg/define/unix_forward.go.
use ovm_next.Base.{
  Text, List, [], ◌∷◌, ◌≡◌, refl, ◌+◌, ◌-◌, ◌≤◌, ◌<◌, map, ok, err, length, arith, ap, ◌∙◌, sym,
  subst,
}
use mathlib.Core.List.{Permᴰ}
use mathlib.Core.List.Permᴰ
use mathlib.Core.Path.{ap₂, fun_ext}
use ovm_next.Forward.Rules.{Rules, value_at, or_empty, HasDistinctKeys, lookup_of_perm}
use ovm_next.Forward.Sorting.{sort, sort-perm, sort_of_perm, sort-IsAscending, IsAscending}
use ovm_next.Forward.Routes.{
  base_port, u32_limit, Route, index_overflow, build_loop, keys_of, build_routes,
}
use ovm_next.Forward.Routes.Laws.{
  numbered, build_loop-numbered, build_loop_overflow, numbered-guest_path, entry, numbered-entry,
  consecutive, numbered-vsock_port, length_of_perm, length-keys_of, All-IsListed, relist,
}

abbrev host_of : Rules → Text → Text
host_of m key = value_at key m

build_routes-loop : (m : Rules) → build_routes m ≡ build_loop (host_of m) (sort (keys_of m)) 0 []
unfolding build_routes
build_routes-loop [] = refl
build_routes-loop (rule ∷ m) = refl

length-sorted : (m : Rules) → length (sort (keys_of m)) ≡ length m
length-sorted m = length_of_perm (sort-perm (keys_of m)) ∙ length-keys_of m

-- What a list of routes has to be for the rules `m`.
pub record IsRouting (m : Rules) (rs : List Route) : Type 0 where
  pub ascending : IsAscending (map (λ r. r.guest_path) rs)
  pub entries : Permᴰ (map entry rs) m
  pub ports : map (λ r. r.vsock_port) rs ≡ consecutive base_port (length m)

numbered-IsRouting :
    (m : Rules) → HasDistinctKeys m → IsRouting m (numbered (host_of m) (sort (keys_of m)) 0)
numbered-IsRouting m d =
    let keys = sort (keys_of m) in
    record {
      ascending = rw (numbered-guest_path (host_of m) keys 0) (sort-IsAscending (keys_of m));
      entries = rw (numbered-entry (host_of m) keys 0) (
          subst (λ l. Permᴰ (map (λ key. (key, host_of m key)) keys) l)
            (relist m m (All-IsListed m d))
            (Permᴰ.map (λ key. (key, host_of m key)) (sort-perm (keys_of m))));
      ports = numbered-vsock_port (host_of m) keys 0 ∙ ap (consecutive base_port) (length-sorted m);
    }

-- For rules with distinct guest paths that the ports from 25900 up to 2^32 - 1 can number,
-- `BuildUnixSocketForwardRoutes` succeeds: its routes are the rules, each once, in ascending order
-- of their guest paths, and their ports are 25900, 25901 and so on.
pub build_routes-IsRouting :
    (m : Rules)
    → HasDistinctKeys m
    → base_port + length m ≤ u32_limit
    → (rs : List Route) × (build_routes m ≡ ok rs) × IsRouting m rs
build_routes-IsRouting m d h = (
  numbered (host_of m) (sort (keys_of m)) 0,
  build_routes-loop m
      ∙ build_loop-numbered (host_of m) (sort (keys_of m)) 0 [] (omega (arith, length-sorted m)) tt,
  numbered-IsRouting m d,
)

-- With more rules than ports `BuildUnixSocketForwardRoutes` fails at the first index whose port is
-- past 2^32 - 1, and never for a duplicate port.
pub build_routes_overflow :
    (m : Rules)
    → u32_limit < base_port + length m
    → build_routes m ≡ err (index_overflow (u32_limit - base_port))
build_routes_overflow m h =
    build_routes-loop m
    ∙ build_loop_overflow (host_of m) (sort (keys_of m)) 0 [] (omega arith)
        (omega (arith, length-sorted m)) tt

-- The order in which a map with distinct keys hands out its entries does not change the result of
-- `BuildUnixSocketForwardRoutes`: host and guest, which each call it, agree on every port.
pub build_routes_of_perm :
    {m m' : Rules} → Permᴰ m m' → HasDistinctKeys m → build_routes m ≡ build_routes m'
build_routes_of_perm {m} {m'} p d =
    let (d', same) = lookup_of_perm p d in
    let hosts : host_of m ≡ host_of m' = fun_ext (λ key. ap or_empty (same key)) in
    let keys = sort_of_perm (Permᴰ.map (λ (rule : Text × Text). rule.0) p) in
    build_routes-loop m ∙ ap₂ (λ f ks. build_loop f ks 0 []) hosts keys ∙ sym (build_routes-loop m')
