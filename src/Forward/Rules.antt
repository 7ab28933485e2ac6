-- ===== src/Forward/Rules.antt =====
-- Go's `map[string]string` from guest paths to host paths, as a list of entries.
use ovm_next.Base.{
  Text, ◌==◌, ==_iff, if◌then◌else◌, Option, none, some, List, [], ◌∷◌, ◌++◌, ◌≡◌, refl, sym, ◌∙◌,
  arith, ap, subst,
}
use mathlib.Core.List.{Permᴰ}

abbrev pub Rules : Type 0
Rules = List (Text × Text)

-- `value, ok := rules[key]`
unfoldable pub lookup : Text → Rules → Option Text
unfolding ◌==◌
lookup key [] = none
lookup key ((k, v) ∷ rules) = if k == key then some v else lookup key rules

-- `rules[key]`, with the zero value of a missing key.
abbrev pub or_empty : Option Text → Text
or_empty none = []
or_empty (some v) = v

abbrev pub value_at : Text → Rules → Text
value_at key rules = or_empty (lookup key rules)

-- No key stands twice: what a map's entries satisfy.
abbrev pub HasDistinctKeys : Rules → Type 0
HasDistinctKeys [] = Unit
HasDistinctKeys ((k, v) ∷ rules) = (lookup k rules ≡ none) × HasDistinctKeys rules

pub lookup-append :
    (key k v : Text) (rules : Rules)
    → lookup k rules ≡ none
    → lookup key (rules ++ (k, v) ∷ []) ≡ (if k == key then some v else lookup key rules)
unfolding lookup
lookup-append key k v [] h = refl
lookup-append key k v ((j, w) ∷ rules) h =
    ground (arith, lookup-append key k v rules, ==_iff k key, ==_iff j key, ==_iff j k)

pub HasDistinctKeys-append :
    (rules : Rules) (k v : Text)
    → HasDistinctKeys rules
    → lookup k rules ≡ none
    → HasDistinctKeys (rules ++ (k, v) ∷ [])
unfolding lookup
HasDistinctKeys-append [] k v d h = (refl, tt)
HasDistinctKeys-append ((j, w) ∷ rules) k v (fresh, d) h = (
  lookup-append j k v rules (ground arith) ∙ ground (arith, ==_iff k j, ==_iff j k),
  HasDistinctKeys-append rules k v d (ground arith),
)

abbrev SameLookups : Rules → Rules → Type 0
SameLookups m m' = HasDistinctKeys m' × ((key : Text) → lookup key m ≡ lookup key m')

swap-lookup :
    (k v j w key : Text) (m : Rules)
    → lookup k ((j, w) ∷ m) ≡ none
    → lookup key ((k, v) ∷ (j, w) ∷ m) ≡ lookup key ((j, w) ∷ (k, v) ∷ m)
unfolding lookup
swap-lookup k v j w key m h = ground (arith, ==_iff j k, ==_iff k key, ==_iff j key)

swap-HasDistinctKeys :
    (k v j w : Text) (m : Rules)
    → HasDistinctKeys ((k, v) ∷ (j, w) ∷ m)
    → HasDistinctKeys ((j, w) ∷ (k, v) ∷ m)
unfolding lookup
swap-HasDistinctKeys k v j w m (fk, (fj, d)) =
    (ground (arith, ==_iff j k, ==_iff k j), (ground arith, d))

-- The order of the entries does not matter for a lookup.
pub lookup_of_perm : {m m' : Rules} → Permᴰ m m' → HasDistinctKeys m → SameLookups m m'
unfolding lookup
lookup_of_perm Permᴰ.nil d = (tt, λ key. refl)
lookup_of_perm (Permᴰ.cons {a = a} {b = b} {l₁ = l} {l₂ = l'} e p) d =
    let (d', same) = lookup_of_perm p d.1 in
    subst (λ c. SameLookups (a ∷ l) (c ∷ l')) e
      ((sym (same a.0) ∙ d.0, d'), λ key. ap (λ r. if a.0 == key then some a.1 else r) (same key))
lookup_of_perm (Permᴰ.swap {a = a} {b = b} {a' = a'} {b' = b'} {l = l} e e') d =
    subst (λ c. SameLookups (a ∷ b ∷ l) (c ∷ b' ∷ l)) e'
      (subst (λ c. SameLookups (a ∷ b ∷ l) (b ∷ c ∷ l)) e
        (swap-HasDistinctKeys a.0 a.1 b.0 b.1 l d, λ key. swap-lookup a.0 a.1 b.0 b.1 key l d.0))
lookup_of_perm (Permᴰ.trans p q) d =
    let (d', same) = lookup_of_perm p d in
    let (d'', same') = lookup_of_perm q d' in (d'', λ key. same key ∙ same' key)
