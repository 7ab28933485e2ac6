-- ===== src/Forward/Hosts.antt =====
-- Who uses the routes: pkg/libkrun/vsock.go maps each port to a socket of the host, and
-- cmd/guest-agent/pkg/service/unix_forwarder.go dials the port of a guest socket. Both call
-- `BuildUnixSocketForwardRoutes` on the rules that they hold.
pub mod Agreement
use ovm_next.Base.{
  ℕ, eqb, Text, List, [], ◌∷◌, map, if◌then◌else◌, Option, none, some, Result, ok, err,
}
use ovm_next.Forward.Rules.{Rules}
use ovm_next.Forward.Routes.{Route, RouteError, build_routes}

-- `unixForwardRule`
pub record ForwardRule : Type 0 where
  pub guest_path : Text
  pub host_path : Text
  pub vsock_port : ℕ

-- `buildUnixForwardRules`
unfoldable pub build_unix_forward_rules : List Route → List ForwardRule
build_unix_forward_rules [] = []
build_unix_forward_rules (route ∷ routes) =
    record {
      guest_path = route.guest_path;
      host_path = route.host_path;
      vsock_port = route.vsock_port;
    }
    ∷ build_unix_forward_rules routes

-- The rules that `StartUnixForwarders` starts; an error starts none.
abbrev pub rules_of : Result RouteError (List Route) → List ForwardRule
rules_of (err e) = []
rules_of (ok routes) = build_unix_forward_rules routes

unfoldable pub start_unix_forwarders : Rules → List ForwardRule
start_unix_forwarders [] = []
start_unix_forwarders (rule ∷ rules) = rules_of (build_routes (rule ∷ rules))

-- The ports that the loop of `setupVSock` adds to the machine, with their host sockets.
abbrev pub ports_of : Result RouteError (List Route) → Result RouteError (List (ℕ × Text))
ports_of (err e) = err e
ports_of (ok routes) = ok (map (λ route. (route.vsock_port, route.host_path)) routes)

unfoldable pub setup_vsock : Rules → Result RouteError (List (ℕ × Text))
setup_vsock rules = ports_of (build_routes rules)

-- The host socket that a connection to a port reaches.
abbrev pub reached : List (ℕ × Text) → ℕ → Option Text
reached [] port = none
reached ((p, path) ∷ ports) port = if eqb p port then some path else reached ports port
