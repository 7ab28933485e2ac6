-- ===== src/Examples/Forwarding.antt =====
-- Forwarding sockets, on two rules.
use ovm_next.Forward.Parse.{
  no_separator, empty_path, relative_guest, relative_host, duplicate_guest,
}
use ovm_next.Base.{err, ◌+◌}
use ovm_next.Forward.Routes.{base_port}
use ovm_next.Base.{ℕ, Text, codes, ◌==◌, List, [], ◌∷◌, map, ok, ◌≡◌, refl, All, arith, trim_space}
use mathlib.Core.List.{Permᴰ}
use ovm_next.Forward.Rules.{Rules, HasDistinctKeys, lookup}
use ovm_next.Forward.Routes.{Route, build_routes}
use ovm_next.Forward.Routes.Properties.{IsRouting, build_routes-IsRouting, build_routes_of_perm}
use ovm_next.Forward.Hosts.{ForwardRule, setup_vsock, start_unix_forwarders}
use ovm_next.Forward.Hosts.Agreement.{IsConnected, setup_vsock-start_unix_forwarders}
use ovm_next.Forward.Parse.{parse_rules, parsing}
use ovm_next.Forward.Parse.RoundTrip.{
  IsWritable, IsSocketPath, format_rule, parse_rules-format_rule,
}
use ovm_next.Forward.Merge.{Merged, merge_auto_rule}
use ovm_next.Forward.Merge.Laws.{IsMerge, merge_auto_rule-IsMerge}

abbrev two_rules : Rules
two_rules = (codes "/b", codes "/hb") ∷ (codes "/a", codes "/ha") ∷ []

abbrev swapped : Rules
swapped = (codes "/a", codes "/ha") ∷ (codes "/b", codes "/hb") ∷ []

two_rules-HasDistinctKeys : HasDistinctKeys two_rules
unfolding lookup ◌==◌
two_rules-HasDistinctKeys = (refl, (refl, tt))

two_rules-swapped : Permᴰ two_rules swapped
two_rules-swapped = Permᴰ.swap refl refl

setup_vsock-start_unix_forwarders_example :
    (ports : List (ℕ × Text)) × (setup_vsock two_rules ≡ ok ports)
    × All (IsConnected ports) (start_unix_forwarders swapped)
    × Permᴰ
        (map
          (λ (rule : ForwardRule). (rule.guest_path, rule.host_path))
          (start_unix_forwarders swapped))
        two_rules
setup_vsock-start_unix_forwarders_example =
    setup_vsock-start_unix_forwarders two_rules swapped two_rules-swapped two_rules-HasDistinctKeys
      (omega arith)

build_routes-IsRouting_example :
    (rs : List Route) × (build_routes two_rules ≡ ok rs) × IsRouting two_rules rs
build_routes-IsRouting_example =
    build_routes-IsRouting two_rules two_rules-HasDistinctKeys (omega arith)

build_routes_of_perm_example : build_routes two_rules ≡ build_routes swapped
build_routes_of_perm_example = build_routes_of_perm two_rules-swapped two_rules-HasDistinctKeys

b_path : IsSocketPath (codes "/b")
unfolding trim_space
b_path = IsSocketPath.socket_path (codes "b") refl

hb_path : IsSocketPath (codes "/hb")
unfolding trim_space
hb_path = IsSocketPath.socket_path (codes "hb") refl

a_path : IsSocketPath (codes "/a")
unfolding trim_space
a_path = IsSocketPath.socket_path (codes "a") refl

ha_path : IsSocketPath (codes "/ha")
unfolding trim_space
ha_path = IsSocketPath.socket_path (codes "ha") refl

two_rules-IsWritable : All IsWritable two_rules
two_rules-IsWritable = (
  (b_path, ((λ e. cc), ((λ e. cc), tt)), hb_path),
  ((a_path, ((λ e. cc), ((λ e. cc), tt)), ha_path), tt),
)

parse_rules-format_rule_example :
    parse_rules (map (λ rule. format_rule rule.0 rule.1) two_rules) ≡ ok two_rules
parse_rules-format_rule_example =
    parse_rules-format_rule two_rules two_rules-IsWritable two_rules-HasDistinctKeys

abbrev two_specs : List Text
two_specs = codes " /b : unix:///hb" ∷ codes "/a:/ha" ∷ []

two_specs-parsed : parse_rules two_specs ≡ ok two_rules
unfolding parsing
two_specs-parsed = refl

merge_auto_rule-IsMerge_example :
    (m : Merged) × (rules' : Rules) × (merge_auto_rule two_specs (codes "/a") (codes "/hb") ≡ ok m)
    × IsMerge two_rules (codes "/a") (codes "/hb") m rules'
merge_auto_rule-IsMerge_example =
    merge_auto_rule-IsMerge two_specs two_rules (codes "/a") (codes "/hb") a_path
      ((λ e. cc), ((λ e. cc), tt)) hb_path two_specs-parsed

-- The first test of unix_forward_test.go.
build_routes_test :
    build_routes (
      (codes "/tmp/b.sock", codes "/tmp/host-b.sock")
      ∷ (codes "/tmp/a.sock", codes "/tmp/host-a.sock")
      ∷ [])
    ≡ ok (
        record {
          guest_path = codes "/tmp/a.sock";
          host_path = codes "/tmp/host-a.sock";
          vsock_port = base_port;
        }
        ∷ record {
          guest_path = codes "/tmp/b.sock";
          host_path = codes "/tmp/host-b.sock";
          vsock_port = base_port + 1;
        }
        ∷ [])
unfolding build_routes
build_routes_test = refl

parse_rules_tests :
    (parse_rules (codes " /g.sock : unix:///h.sock " ∷ codes "  " ∷ [])
      ≡ ok ((codes "/g.sock", codes "/h.sock") ∷ []))
    × (parse_rules (codes "/g" ∷ []) ≡ err (no_separator (codes "/g")))
    × (parse_rules (codes "/g:" ∷ []) ≡ err (empty_path (codes "/g:")))
    × (parse_rules (codes "g:/h" ∷ []) ≡ err (relative_guest (codes "g")))
    × (parse_rules (codes "/g:h" ∷ []) ≡ err (relative_host (codes "h")))
    × (parse_rules (codes "/g:/h" ∷ codes "/g:/i" ∷ [])
        ≡ err (duplicate_guest (codes "/g") (codes "/h")))
unfolding parsing
parse_rules_tests = (refl, refl, refl, refl, refl, refl)
