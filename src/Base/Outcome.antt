-- ===== src/Base/Outcome.antt =====
-- Go's `(value, error)` results: a value, or an error instead of it.
use mathlib.Core.Path.{◌≡◌, refl}

pub data Result {ℓ κ} (E : Type ℓ) (A : Type κ) : Type (ℓ ⊔ κ) where
  ok : A → Result E A
  err : E → Result E A

module _ {ℓ κ μ} {E : Type ℓ} {A : Type κ} {B : Type μ} where
  infixl 5 ◌>>=◌
  -- `if err != nil { return ..., err }` between two calls.
  abbrev pub ◌>>=◌ : Result E A → (A → Result E B) → Result E B
  err x >>= next = err x
  ok value >>= next = next value

  -- Two calls succeed together only if both do.
  pub >>=-eq-ok :
      (first : Result E A) (next : A → Result E B) {result : B}
      → (first >>= next) ≡ ok result
      → (value : A) × (first ≡ ok value) × (next value ≡ ok result)
  >>=-eq-ok (err x) next e = cc
  >>=-eq-ok (ok value) next e = (value, refl, e)

pub >>=_assoc {ℓ κ μ ν} :
    {E : Type ℓ} {A : Type κ} {B : Type μ} {C : Type ν} (first : Result E A) (next : A → Result E B)
    (last : B → Result E C)
    → ((first >>= next) >>= last) ≡ (first >>= λ value. next value >>= last)
>>=_assoc (err x) next last = refl
>>=_assoc (ok value) next last = refl
