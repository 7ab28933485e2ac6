-- ===== src/Base/StringLaws.antt =====
-- Laws of the text functions.
use Prim.Native.Nat.{ℕ}
use mathlib.Core.Path.{◌≡◌, refl, ap, ◌∙◌}
use mathlib.Core.Logic.{◌≢◌, ◌↔◌}
use mathlib.Core.Bool.{true, false}
use mathlib.Core.List.{[], ◌∷◌, ◌++◌}
use mathlib.Core.Option.{none, some}
use native.Mathlib.Omega.{arith}
use ovm_next.Base.Strings.{
  Text, ◌==◌, trim_space, trim_left, trim_right, keep_unless_blank, is_space, cut, split,
}

eq_of_== : (s t : Text) → (s == t) ≡ true → s ≡ t
unfolding ◌==◌
eq_of_== [] [] h = refl
eq_of_== [] (b ∷ t) h = cc
eq_of_== (a ∷ s) [] h = cc
eq_of_== (a ∷ s) (b ∷ t) h = ground (arith, eq_of_== s t)

pub ==_refl : (s : Text) → (s == s) ≡ true
unfolding ◌==◌
==_refl [] = refl
==_refl (a ∷ s) = ground (arith, ==_refl s)

pub ==_iff : (s t : Text) → ((s == t) ≡ true) ↔ (s ≡ t)
==_iff s t = (eq_of_== s t, λ e. rw e (==_refl t))

-- No character of the text is `sep`.
abbrev pub Lacks : ℕ → Text → Type 0
Lacks sep [] = Unit
Lacks sep (c ∷ s) = (c ≢ sep) × Lacks sep s

pub cut-append : (sep : ℕ) (s t : Text) → Lacks sep s → cut sep (s ++ sep ∷ t) ≡ some (s, t)
unfolding cut
cut-append sep [] t h = ground arith
cut-append sep (c ∷ s) t h = ground (arith, cut-append sep s t h.1)

pub cut_of_Lacks : (sep : ℕ) (s : Text) → Lacks sep s → cut sep s ≡ none
unfolding cut
cut_of_Lacks sep [] h = refl
cut_of_Lacks sep (c ∷ s) h = ground (arith, cut_of_Lacks sep s h.1)

pub split-append :
    (sep : ℕ) (s t : Text)
    → Lacks sep s
    → split sep (s ++ sep ∷ t) ≡ (s, (split sep t).0 ∷ (split sep t).1)
unfolding split
split-append sep [] t h = ground arith
split-append sep (c ∷ s) t h = ground (arith, split-append sep s t h.1)

pub split_of_Lacks : (sep : ℕ) (s : Text) → Lacks sep s → split sep s ≡ (s, [])
unfolding split
split_of_Lacks sep [] h = refl
split_of_Lacks sep (c ∷ s) h = ground (arith, split_of_Lacks sep s h.1)

-- What `strings.TrimSpace` returns has no blank at either end.
abbrev pub IsTrimmed : Text → Type 0
IsTrimmed s = trim_space s ≡ s

keep_unless_blank-append :
    (d : ℕ) (s : Text) (c : ℕ) (t : Text) → keep_unless_blank d (s ++ c ∷ t) ≡ d ∷ (s ++ c ∷ t)
keep_unless_blank-append d [] c t = refl
keep_unless_blank-append d (e ∷ s) c t = refl

-- What stands in front of a text that is trimmed at its end is kept.
pub trim_right-append :
    (s : Text) (c : ℕ) (t : Text)
    → trim_right (c ∷ t) ≡ c ∷ t
    → trim_right (s ++ c ∷ t) ≡ s ++ c ∷ t
unfolding trim_right
trim_right-append [] c t h = h
trim_right-append (d ∷ s) c t h =
    ap (keep_unless_blank d) (trim_right-append s c t h) ∙ keep_unless_blank-append d s c t

keep_unless_blank_visible : (c : ℕ) (s : Text) → is_space c ≡ false → keep_unless_blank c s ≡ c ∷ s
keep_unless_blank_visible c [] h = rw h
keep_unless_blank_visible c (d ∷ s) h = refl

pub trim_right-cons :
    (c : ℕ) (s : Text) → is_space c ≡ false → trim_right (c ∷ s) ≡ c ∷ trim_right s
unfolding trim_right
trim_right-cons c s h = keep_unless_blank_visible c (trim_right s) h

trim_left_visible : (c : ℕ) (s : Text) → is_space c ≡ false → trim_left (c ∷ s) ≡ c ∷ s
unfolding trim_left
trim_left_visible c s h = rw h

-- A text that starts with a visible character is trimmed at its end alone.
pub trim_space-cons :
    (c : ℕ) (s : Text) → is_space c ≡ false → trim_space (c ∷ s) ≡ c ∷ trim_right s
unfolding trim_space
trim_space-cons c s h = rw (trim_right-cons c s h) (trim_left_visible c (trim_right s) h)
