-- ===== src/Forward/Parse.antt =====
-- pkg/librevm/unix_forward.go: reading the forward rules of the configuration.
pub mod Laws
pub mod RoundTrip
use ovm_next.Base.{
  ℕ, Text, codes, ◌==◌, trim_space, cut, trim_prefix, if◌then◌else◌, Bool, true, false, not, ◌||◌,
  List, [], ◌∷◌, ◌++◌, ◌≡◌, refl, Result, ok, err, ◌>>=◌, Option, none, some,
}
use ovm_next.FilePath.{is_abs}
use ovm_next.Forward.Rules.{Rules, lookup}

pub data ParseError : Type 0 where
  no_separator : Text → ParseError
  empty_path : Text → ParseError
  relative_guest relative_host : Text → ParseError
  duplicate_guest : Text → Text → ParseError

abbrev pub colon : ℕ
colon = b':'

abbrev pub unix_scheme : Text
unix_scheme = codes "unix://"

-- What follows the checks of the two paths: `rules[guestPath] = hostPath` unless it is there.
abbrev pub add_rule : Rules → Text → Text → Result ParseError Rules
add_rule rules guest_path host_path = elim (lookup guest_path rules) [
  | some existing ↦ err (duplicate_guest guest_path existing)
  | none ↦ ok (rules ++ (guest_path, host_path) ∷ [])
]

-- The checks of a rule whose paths are trimmed.
unfoldable pub check_rule : Text → Rules → Text → Text → Result ParseError Rules
check_rule raw rules guest_path host_path =
    if guest_path == [] || host_path == []
    then err (empty_path raw)
    else if not (is_abs guest_path)
    then err (relative_guest guest_path)
    else if not (is_abs host_path)
    then err (relative_host host_path)
    else add_rule rules guest_path host_path

-- One round of the loop.
unfoldable pub parse_spec : Rules → Text → Result ParseError Rules
parse_spec rules raw =
    let spec = trim_space raw in
    if spec == [] then ok rules else elim (cut colon spec) [
      | none ↦ err (no_separator raw)
      | some (guest, host) ↦
          check_rule raw rules (trim_space guest) (trim_prefix (trim_space host) unix_scheme)
    ]

unfoldable pub parse_loop : Rules → List Text → Result ParseError Rules
parse_loop rules [] = ok rules
parse_loop rules (raw ∷ specs) = do next ← parse_spec rules raw; parse_loop next specs

-- `parseForwardUnixRules`; no rule at all is an empty map.
unfoldable pub parse_rules : List Text → Result ParseError Rules
parse_rules specs = parse_loop [] specs

-- What a run of the parser computes with.
unfoldable pub parsing : Unit {0}
unfolding parse_rules parse_loop parse_spec check_rule trim_space cut trim_prefix lookup ◌==◌ is_abs
parsing = tt
