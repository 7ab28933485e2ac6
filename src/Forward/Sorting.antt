-- ===== src/Forward/Sorting.antt =====
-- `sort.Strings`: the library's algorithm is not the program's, so an insertion sort stands for it.
use ovm_next.Base.{
  Text, text_leb, if◌then◌else◌, true, false, List, [], ◌∷◌, ◌≡◌, refl, ◌∙◌, arith, Bool-cases, inl,
  inr, All,
}
use mathlib.Core.List.{Permᴰ}
use mathlib.Core.List.Permᴰ

insert : Text → List Text → List Text
insert x [] = x ∷ []
insert x (y ∷ ys) = if text_leb x y then x ∷ y ∷ ys else y ∷ insert x ys

unfoldable pub sort : List Text → List Text
unfolding insert text_leb
sort [] = []
sort (x ∷ xs) = insert x (sort xs)

leb_total : (s t : Text) → text_leb s t ≡ false → text_leb t s ≡ true
unfolding text_leb
leb_total [] t h = cc
leb_total (a ∷ s) [] h = refl
leb_total (a ∷ s) (b ∷ t) h = ground (arith, leb_total s t)

leb_antisymm : (s t : Text) → text_leb s t ≡ true → text_leb t s ≡ true → s ≡ t
unfolding text_leb
leb_antisymm [] [] h k = refl
leb_antisymm [] (b ∷ t) h k = cc
leb_antisymm (a ∷ s) [] h k = cc
leb_antisymm (a ∷ s) (b ∷ t) h k = ground (arith, leb_antisymm s t)

leb_trans : (s t u : Text) → text_leb s t ≡ true → text_leb t u ≡ true → text_leb s u ≡ true
unfolding text_leb
leb_trans [] t u h k = refl
leb_trans (a ∷ s) [] u h k = cc
leb_trans (a ∷ s) (b ∷ t) [] h k = cc
leb_trans (a ∷ s) (b ∷ t) (c ∷ u) h k = ground (arith, leb_trans s t u)

insert_comm : (x y : Text) (l : List Text) → insert x (insert y l) ≡ insert y (insert x l)
unfolding insert
insert_comm x y [] = ground (arith, leb_total x y, leb_total y x, leb_antisymm x y)
insert_comm x y (z ∷ l) = ground (
  arith,
  leb_total x y,
  leb_total y x,
  leb_antisymm x y,
  leb_trans x y z,
  leb_trans y x z,
  leb_total x z,
  leb_total y z,
  leb_antisymm x z,
  leb_antisymm y z,
  insert_comm x y l,
)

-- The order of the input does not matter.
pub sort_of_perm : {l l' : List Text} → Permᴰ l l' → sort l ≡ sort l'
unfolding sort
sort_of_perm Permᴰ.nil = refl
sort_of_perm (Permᴰ.cons {a = a} {b = b} {l₁ = l} {l₂ = l'} e p) = cc (sort_of_perm p)
sort_of_perm (Permᴰ.swap {a = a} {b = b} {l = l} e e') = cc (insert_comm a b (sort l))
sort_of_perm (Permᴰ.trans p q) = sort_of_perm p ∙ sort_of_perm q

-- Ascending in the order of `sort.Strings`, repetitions allowed.
abbrev pub IsAscending : List Text → Type 0
IsAscending [] = Unit
IsAscending (x ∷ xs) = All (λ y. text_leb x y ≡ true) xs × IsAscending xs

All-insert : (P : Text → Type 0) (x : Text) (l : List Text) → P x → All P l → All P (insert x l)
unfolding insert
All-insert P x [] p h = (p, tt)
All-insert P x (y ∷ ys) p (q, h) = elim (Bool-cases (text_leb x y)) [
  | inl e ↦ rw (e, insert) (p, (q, h))
  | inr e ↦ rw (e, insert) (q, All-insert P x ys p h)
]

All-leb_trans :
    (x y : Text) (l : List Text)
    → text_leb x y ≡ true
    → All (λ z. text_leb y z ≡ true) l
    → All (λ z. text_leb x z ≡ true) l
All-leb_trans x y [] e h = tt
All-leb_trans x y (z ∷ l) e (p, h) = (leb_trans x y z e p, All-leb_trans x y l e h)

insert-IsAscending : (x : Text) (l : List Text) → IsAscending l → IsAscending (insert x l)
unfolding insert
insert-IsAscending x [] h = (tt, tt)
insert-IsAscending x (y ∷ ys) (b, h) = elim (Bool-cases (text_leb x y)) [
  | inl e ↦ rw (e, insert) ((e, All-leb_trans x y ys e b), (b, h))
  | inr e ↦ rw (e, insert) (All-insert _ x ys (leb_total x y e) b, insert-IsAscending x ys h)
]

pub sort-IsAscending : (l : List Text) → IsAscending (sort l)
unfolding sort
sort-IsAscending [] = tt
sort-IsAscending (x ∷ xs) = insert-IsAscending x (sort xs) (sort-IsAscending xs)

insert-perm : (x : Text) (l : List Text) → Permᴰ (insert x l) (x ∷ l)
unfolding insert
insert-perm x [] = Permᴰ.cons refl Permᴰ.nil
insert-perm x (y ∷ ys) = elim (Bool-cases (text_leb x y)) [
  | inl e ↦ rw (e, insert) (Permᴰ.refl (x ∷ y ∷ ys))
  | inr e ↦ rw (e, insert) (Permᴰ.trans (Permᴰ.cons refl (insert-perm x ys)) (Permᴰ.swap refl refl))
]

pub sort-perm : (l : List Text) → Permᴰ (sort l) l
unfolding sort
sort-perm [] = Permᴰ.nil
sort-perm (x ∷ xs) = Permᴰ.trans (insert-perm x (sort xs)) (Permᴰ.cons refl (sort-perm xs))
