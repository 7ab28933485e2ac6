-- ===== src/Forward/Parse/RoundTrip.antt =====
-- Reading a rule that is written as "guest:host".
use ovm_next.Base.{
  Text, ◌==◌, trim_space, trim_right, trim_prefix, false, List, [], ◌∷◌, ◌++◌, ◌≡◌, refl, ok, ◌>>=◌,
  none, All, Lacks, cut-append, trim_right-append, trim_right-cons, trim_space-cons, arith, ap, ◌∙◌,
  sym, map, ==_iff, >>=_assoc, append_assoc, append-nil,
}
use mathlib.Core.Path.{fun_ext}
use ovm_next.FilePath.{is_abs}
use ovm_next.Forward.Rules.{Rules, lookup, HasDistinctKeys}
use ovm_next.Forward.Parse.{
  colon, unix_scheme, add_rule, check_rule, parse_spec, parse_loop, parse_rules,
}

-- A path that can be written into a rule: absolute, and with no blank at its end.
pub data IsSocketPath : Text → Type 0 where
  socket_path : (p : Text) → trim_right p ≡ p → IsSocketPath (b'/' ∷ p)

-- `fmt.Sprintf("%s:%s", guestPath, hostPath)`
abbrev pub format_rule : Text → Text → Text
format_rule guest_path host_path = guest_path ++ colon ∷ host_path

slash_visible : (s : Text) → trim_space (b'/' ∷ s) ≡ b'/' ∷ trim_right s
slash_visible s = trim_space-cons b'/' s refl

trim_space-format_rule :
    (g h : Text)
    → trim_right h ≡ h
    → trim_space (format_rule (b'/' ∷ g) (b'/' ∷ h)) ≡ format_rule (b'/' ∷ g) (b'/' ∷ h)
trim_space-format_rule g h e =
    let host : trim_right (b'/' ∷ h) ≡ b'/' ∷ h = trim_right-cons b'/' h refl ∙ ap (◌∷◌ b'/') e in
    let tail = trim_right-cons colon (b'/' ∷ h) refl ∙ ap (◌∷◌ colon) host in
    slash_visible (g ++ colon ∷ b'/' ∷ h)
    ∙ ap (◌∷◌ b'/') (trim_right-append g colon (b'/' ∷ h) tail)

trim_prefix_slash : (h : Text) → trim_prefix (b'/' ∷ h) unix_scheme ≡ b'/' ∷ h
unfolding trim_prefix
trim_prefix_slash h = refl

check_rule_slash :
    (raw : Text) (rules : Rules) (g h : Text)
    → check_rule raw rules (b'/' ∷ g) (b'/' ∷ h) ≡ add_rule rules (b'/' ∷ g) (b'/' ∷ h)
unfolding check_rule ◌==◌ is_abs
check_rule_slash raw rules g h = refl

parse_spec-format_rule :
    (rules : Rules) (guest host : Text)
    → IsSocketPath guest
    → Lacks colon guest
    → IsSocketPath host
    → parse_spec rules (format_rule guest host) ≡ add_rule rules guest host
unfolding parse_spec ◌==◌
parse_spec-format_rule rules _ _ (socket_path g eg) lacks (socket_path h eh) =
    rw
      (
        trim_space-format_rule g h eh,
        cut-append colon (b'/' ∷ g) (b'/' ∷ h) lacks,
        slash_visible g,
        slash_visible h,
        eg,
        eh,
        trim_prefix_slash h,
      )
      (check_rule_slash (format_rule (b'/' ∷ g) (b'/' ∷ h)) rules g h)

add_rule_fresh :
    (rules : Rules) (guest host : Text)
    → lookup guest rules ≡ none
    → add_rule rules guest host ≡ ok (rules ++ (guest, host) ∷ [])
add_rule_fresh rules guest host fresh = rw (fresh, add_rule)

pub parse_spec_fresh :
    (rules : Rules) (guest host : Text)
    → IsSocketPath guest
    → Lacks colon guest
    → IsSocketPath host
    → lookup guest rules ≡ none
    → parse_spec rules (format_rule guest host) ≡ ok (rules ++ (guest, host) ∷ [])
parse_spec_fresh rules guest host g lacks h fresh =
    parse_spec-format_rule rules guest host g lacks h ∙ add_rule_fresh rules guest host fresh

pub parse_loop-append :
    (rules : Rules) (specs more : List Text)
    → parse_loop rules (specs ++ more) ≡ (parse_loop rules specs >>= λ next. parse_loop next more)
unfolding parse_loop
parse_loop-append rules [] more = refl
parse_loop-append rules (raw ∷ specs) more =
    ap (λ k. parse_spec rules raw >>= k) (fun_ext (λ next. parse_loop-append next specs more))
    ∙ sym (>>=_assoc (parse_spec rules raw) _ _)

-- Rules that can be written as text: no colon in a guest path, no blank at an end.
abbrev pub IsWritable : Text × Text → Type 0
IsWritable rule = IsSocketPath rule.0 × Lacks colon rule.0 × IsSocketPath rule.1

lookup_later :
    (key k v : Text) (l m : Rules) → lookup key (l ++ (k, v) ∷ m) ≡ none → (k == key) ≡ false
unfolding lookup
lookup_later key k v [] m h = ground arith
lookup_later key k v ((j, w) ∷ l) m h = ground (arith, lookup_later key k v l m)

fresh_key : (k v : Text) (l m : Rules) → HasDistinctKeys (l ++ (k, v) ∷ m) → lookup k l ≡ none
unfolding lookup
fresh_key k v [] m d = refl
fresh_key k v ((j, w) ∷ l) m (fresh, d) =
    ground (arith, lookup_later j k v l m fresh, fresh_key k v l m d, ==_iff k j, ==_iff j k)

parse_loop-format_rule :
    (done rules : Rules)
    → All IsWritable rules
    → HasDistinctKeys (done ++ rules)
    → parse_loop done (map (λ rule. format_rule rule.0 rule.1) rules) ≡ ok (done ++ rules)
unfolding parse_loop
parse_loop-format_rule done [] w d = rw append-nil
parse_loop-format_rule done ((g, h) ∷ rules) ((sg, lacks, sh), w) d =
    rw (parse_spec_fresh done g h sg lacks sh (fresh_key g h done rules d)) (
      rw (← append_assoc done ((g, h) ∷ []) rules) (
        parse_loop-format_rule (done ++ (g, h) ∷ []) rules w
          (rw (append_assoc done ((g, h) ∷ []) rules) d)))

-- Rules with distinct guest paths that are written as "guest:host" are read back as they are, if
-- all paths are absolute with no blank at their end and the guest paths hold no colon.
pub parse_rules-format_rule :
    (rules : Rules)
    → All IsWritable rules
    → HasDistinctKeys rules
    → parse_rules (map (λ rule. format_rule rule.0 rule.1) rules) ≡ ok rules
unfolding parse_rules
parse_rules-format_rule rules w d = parse_loop-format_rule [] rules w d
