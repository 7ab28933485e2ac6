-- ===== src/Forward/Parse/Laws.antt =====
-- What `parseForwardUnixRules` accepts, and what it returns.
use ovm_next.Base.{
  Text, ◌==◌, trim_space, cut, trim_prefix, true, List, [], ◌∷◌, ◌++◌, ◌≡◌, ok, none, All,
  All-append, arith, >>=-eq-ok, Bool-cases, inl, inr, Option-cases,
}
use ovm_next.FilePath.{is_abs}
use ovm_next.Forward.Rules.{Rules, lookup, HasDistinctKeys, HasDistinctKeys-append}
use ovm_next.Forward.Parse.{
  colon, unix_scheme, add_rule, check_rule, parse_spec, parse_loop, parse_rules,
}

-- The rules of a map that was read: both paths absolute, no guest path twice.
pub record IsValid (rules : Rules) : Type 0 where
  pub distinct : HasDistinctKeys rules
  pub absolute : All (λ rule. (is_abs rule.0 ≡ true) × (is_abs rule.1 ≡ true)) rules

add_rule-eq-ok :
    (guest host : Text) (rules next : Rules)
    → add_rule rules guest host ≡ ok next
    → (lookup guest rules ≡ none) × (next ≡ rules ++ (guest, host) ∷ [])
add_rule-eq-ok guest host rules next e = ground arith

check_rule-eq-ok :
    (raw guest host : Text) (rules next : Rules)
    → check_rule raw rules guest host ≡ ok next
    → (lookup guest rules ≡ none)
      × (is_abs guest ≡ true)
      × (is_abs host ≡ true)
      × (next ≡ rules ++ (guest, host) ∷ [])
unfolding check_rule
check_rule-eq-ok raw guest host rules next e = ground arith

append-IsValid :
    (rules : Rules) (guest host : Text)
    → IsValid rules
    → lookup guest rules ≡ none
    → is_abs guest ≡ true
    → is_abs host ≡ true
    → IsValid (rules ++ (guest, host) ∷ [])
append-IsValid rules guest host v fresh g h = record {
  distinct = HasDistinctKeys-append rules guest host v.distinct fresh;
  absolute = All-append _ rules ((guest, host) ∷ []) v.absolute ((g, h), tt);
}

check_rule-IsValid :
    (raw guest host : Text) (rules next : Rules)
    → IsValid rules
    → check_rule raw rules guest host ≡ ok next
    → IsValid next
check_rule-IsValid raw guest host rules next v e =
    let (fresh, g, h, same) = check_rule-eq-ok raw guest host rules next e in
    rw same (append-IsValid rules guest host v fresh g h)

parse_spec-IsValid :
    (rules next : Rules) (raw : Text)
    → IsValid rules
    → parse_spec rules raw ≡ ok next
    → IsValid next
parse_spec-IsValid rules next raw v e = elim (Bool-cases (trim_space raw == [])) [
  | inl blank ↦ let same : rules ≡ next = unfold parse_spec in ground arith in rw (← same) v
  | inr some_text ↦ elim (Option-cases (cut colon (trim_space raw))) [
    | inl missing ↦ absurd (unfold parse_spec in ground arith)
    | inr ((guest, host), found) ↦
        check_rule-IsValid raw (trim_space guest) (trim_prefix (trim_space host) unix_scheme) rules
          next v (unfold parse_spec in ground arith)
  ]
]

parse_loop-IsValid :
    (specs : List Text) (rules final : Rules)
    → IsValid rules
    → parse_loop rules specs ≡ ok final
    → IsValid final
unfolding parse_loop
parse_loop-IsValid [] rules final v e = let same : rules ≡ final = cc in rw (← same) v
parse_loop-IsValid (raw ∷ specs) rules final v e =
    let (next, step, rest) = >>=-eq-ok (parse_spec rules raw) _ e in
    parse_loop-IsValid specs next final (parse_spec-IsValid rules next raw v step) rest

-- Whatever the specs, the rules that `parseForwardUnixRules` returns without error have absolute
-- guest and host paths, and no guest path stands in two of them.
pub parse_rules-IsValid :
    (specs : List Text) (rules : Rules) → parse_rules specs ≡ ok rules → IsValid rules
unfolding parse_rules
parse_rules-IsValid specs rules e =
    parse_loop-IsValid specs [] rules (record { distinct = tt; absolute = tt }) e
