-- ===== src/Forward/Merge/Laws.antt =====
-- The built-in rule against the user's rules.
use ovm_next.Base.{
  Text, ==_iff, ==_refl, true, List, [], ◌∷◌, ◌++◌, ◌≡◌, ◌≢◌, ◌↔◌, refl, ok, none, some, Lacks,
  arith, ◌∙◌, Option-cases, inl, inr,
}
use ovm_next.Forward.Rules.{Rules, lookup, lookup-append}
use ovm_next.Forward.Parse.{parse_rules, parse_loop, colon}
use ovm_next.Forward.Parse.RoundTrip.{
  IsSocketPath, format_rule, parse_loop-append, parse_spec_fresh,
}
use ovm_next.Forward.Merge.{Merged, merge_with, merge_auto_rule}

-- How the merged specs, read as `rules'`, stand to the user's rules.
pub record IsMerge (rules : Rules) (guest host : Text) (m : Merged) (rules' : Rules) : Type 0 where
  pub parsed : parse_rules m.specs ≡ ok rules'
  pub others : (key : Text) → key ≢ guest → lookup key rules' ≡ lookup key rules
  pub user_first :
      (existing : Text)
      → lookup guest rules ≡ some existing
      → (rules' ≡ rules) × (m.existing_host_path ≡ existing)
  pub starts : (m.should_start ≡ true) ↔ (lookup guest rules' ≡ some host)

parse_rules_one_more :
    (specs : List Text) (rules : Rules) (guest host : Text)
    → IsSocketPath guest
    → Lacks colon guest
    → IsSocketPath host
    → parse_rules specs ≡ ok rules
    → lookup guest rules ≡ none
    → parse_rules (specs ++ format_rule guest host ∷ []) ≡ ok (rules ++ (guest, host) ∷ [])
unfolding parse_rules parse_loop
parse_rules_one_more specs rules guest host g lacks h e fresh =
    parse_loop-append [] specs (format_rule guest host ∷ [])
    ∙ rw (e, parse_spec_fresh rules guest host g lacks h fresh)

-- If the user's rules can be read, the built-in rule with a writable guest path and host path is
-- merged without error. The merged specs can be read again: every other guest path is forwarded
-- as before, a user's rule for the built-in guest path is kept and reported, and the built-in
-- service is started exactly when its guest path is then forwarded to its own socket.
pub merge_auto_rule-IsMerge :
    (specs : List Text) (rules : Rules) (guest host : Text)
    → IsSocketPath guest
    → Lacks colon guest
    → IsSocketPath host
    → parse_rules specs ≡ ok rules
    → (m : Merged) × (rules' : Rules) × (merge_auto_rule specs guest host ≡ ok m)
      × IsMerge rules guest host m rules'
unfolding merge_auto_rule
merge_auto_rule-IsMerge specs rules guest host g lacks h e =
    elim (Option-cases (lookup guest rules)) [
      | inl fresh ↦ (
        merge_with specs guest host none,
        rules ++ (guest, host) ∷ [],
        rw (e, fresh),
        record {
          parsed = parse_rules_one_more specs rules guest host g lacks h e fresh;
          others =
              λ key ne. ground (arith, lookup-append key guest host rules fresh, ==_iff guest key);
          user_first = λ existing found. cc;
          starts = (
            λ _. ground (arith, lookup-append guest guest host rules fresh, ==_refl guest),
            λ _. refl,
          );
        },
      )
      | inr (existing, found) ↦ (
        merge_with specs guest host (some existing),
        rules,
        rw (e, found),
        record {
          parsed = e;
          others = λ key ne. refl;
          user_first = λ other same. (refl, cc);
          starts = (
            λ s. ground (arith, ==_iff existing host),
            λ s. ground (arith, ==_iff existing host),
          );
        },
      )
    ]
