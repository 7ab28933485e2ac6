-- ===== src/Forward/Routes.antt =====
-- pkg/define/unix_forward.go: the vsock port of each forwarded socket. A `uint32` is a number with
-- its wrap-around written out; an index is that of a `range`, never negative.
pub mod Laws
pub mod Properties
use ovm_next.Base.{
  Text, if◌then◌else◌, Bool, true, false, ◌||◌, List, [], ◌∷◌, ◌≡◌, refl, ltb, eqb, ℕ, suc, ◌+◌,
  ◌-◌, ◌%◌, ◌^◌, map, Result, ok, err, ◌>>=◌, codes,
}
use ovm_next.Forward.Rules.{Rules, value_at, lookup}
use ovm_next.Forward.Sorting.{sort}

abbrev pub base_port : ℕ
base_port = 25900

abbrev pub u32_limit : ℕ
u32_limit = 4294967296

pub record Route : Type 0 where
  pub guest_path : Text
  pub host_path : Text
  pub vsock_port : ℕ

pub data RouteError : Type 0 where
  index_overflow : ℕ → RouteError
  duplicate_port : ℕ → Text → RouteError

-- `unixForwardVSockPortByIndex`
unfoldable pub port_by_index : ℕ → Result RouteError ℕ
port_by_index index =
    if ltb (u32_limit - 1) (base_port + index)
    then err (index_overflow index)
    else ok ((base_port + index % u32_limit) % u32_limit)

-- `_, exists := usedPorts[port]`
unfoldable pub is_used : ℕ → List ℕ → Bool
is_used port [] = false
is_used port (p ∷ ps) = eqb p port || is_used port ps

abbrev prepend : Route → Result RouteError (List Route) → Result RouteError (List Route)
prepend r (ok rs) = ok (r ∷ rs)
prepend r (err e) = err e

abbrev route_of : Text → (Text → Text) → ℕ → Route
route_of key forwards port = record {
  guest_path = key;
  host_path = forwards key;
  vsock_port = port;
}

-- The loop over the sorted keys, from index `i`, with the ports used so far.
pub build_loop : (Text → Text) → List Text → ℕ → List ℕ → Result RouteError (List Route)
unfolding port_by_index is_used
build_loop forwards [] i used = ok []
build_loop forwards (key ∷ keys) i used =
    let rest = λ (port : ℕ). build_loop forwards keys (suc i) (port ∷ used) in
    do
      port ← port_by_index i
      if is_used port used
          then err (duplicate_port port key)
          else prepend (route_of key forwards port) (rest port)

abbrev pub keys_of : Rules → List Text
keys_of = map (λ rule. rule.0)

-- `BuildUnixSocketForwardRoutes`
unfoldable pub build_routes : Rules → Result RouteError (List Route)
unfolding build_loop sort lookup
build_routes [] = ok []
build_routes (rule ∷ rules) =
    build_loop (λ key. value_at key (rule ∷ rules)) (sort (keys_of (rule ∷ rules))) 0 []
