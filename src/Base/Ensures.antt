-- ===== src/Base/Ensures.antt =====
-- What a fallible step ensures of its value where it succeeds, with a rule for `>>=`.
use mathlib.Core.Path.{◌≡◌, refl, sym, subst}
use mathlib.Core.Bool.{Bool, true, false}
use ovm_next.Base.Tests.{if◌then◌else◌}
use ovm_next.Base.Outcome.{Result, ok, err}
use ovm_next.Base.Action.{Action, continue, ◌>>=◌, >>=-eq, pure, fail, lift, relabel, of_result}

-- `P` holds of the value, if there is one.
pub data Holds {E W A : Type 0} (P : A → Type 0) : W × Result E A → Type 0 where
  returns : {w : W} {a : A} → P a → Holds P (w, ok a)
  fails : {w : W} {e : E} → Holds P (w, err e)

pub record Ensures {E W A : Type 0} (P : A → Type 0) (m : Action E W A) : Type 0 where
  pub from : (w : W) → Holds P (m w)

module _ {E W A : Type 0} where
  continue-Holds :
      {B : Type 0} {P : A → Type 0} {Q : B → Type 0} (r : W × Result E A) (f : A → Action E W B)
      → Holds P r
      → ((a : A) → P a → Ensures Q (f a))
      → Holds Q (continue r f)
  continue-Holds r f (returns {w} {a} h) k = (k a h).from w
  continue-Holds r f fails k = fails

  infixl 1 ◌⟫◌
  pub ◌⟫◌ :
      {B : Type 0} {P : A → Type 0} {Q : B → Type 0} {m : Action E W A} {f : A → Action E W B}
      → Ensures P m
      → ((a : A) → P a → Ensures Q (f a))
      → Ensures Q (m >>= f)
  ◌⟫◌ {Q} {m} {f} h k = record {
    from = λ w. subst (Holds Q) (sym (>>=-eq m f w)) (continue-Holds (m w) f (h.from w) k);
  }

  something : (r : W × Result E A) → Holds (λ _. Unit {0}) r
  something (w, ok a) = returns tt
  something (w, err e) = fails

  -- A first step of whose value nothing needs to be known.
  pub behind :
      {B : Type 0} {Q : B → Type 0} (m : Action E W A) {f : A → Action E W B}
      → ((a : A) → Ensures Q (f a))
      → Ensures Q (m >>= f)
  behind m k = (record { from = λ w. something (m w) }) ⟫ λ a _. k a

  pub done : {P : A → Type 0} {a : A} → P a → Ensures {E = E} {W = W} P (pure a)
  done h = record { from = λ w. returns h }

  pub failed : {P : A → Type 0} {e : E} → Ensures {E = E} {W = W} P (fail e)
  failed = record { from = λ w. fails }

  value-Holds :
      {P : A → Type 0} {w : W} {a : A} (r : W × Result E A) → Holds P r → r ≡ (w, ok a) → P a
  value-Holds {P} {a} r (returns {a = b} h) e = let same : b ≡ a = cc in subst P same h
  value-Holds r fails e = cc

  -- What a step ensures holds where it succeeds.
  pub of_ok :
      {P : A → Type 0} {m : Action E W A} {w w' : W} {a : A} → Ensures P m → m w ≡ (w', ok a) → P a
  of_ok {m} {w} h e = value-Holds (m w) (h.from w) e

  -- A check that is passed, and a choice.
  pub unless :
      {P : A → Type 0} (b : Bool) {m n : Action E W A}
      → (b ≡ true → Ensures P m)
      → (b ≡ false → Ensures P n)
      → Ensures P (if b then m else n)
  unless true g h = g refl
  unless false g h = h refl

  pub weaken :
      {P Q : A → Type 0} {m : Action E W A} → ((a : A) → P a → Q a) → Ensures P m → Ensures Q m
  weaken {P} {Q} {m} k h = record { from = λ w. go (m w) (h.from w) }
    where
      go : (r : W × Result E A) → Holds P r → Holds Q r
      go r (returns h) = returns (k _ h)
      go r fails = fails

module _ {D E W A : Type 0} (f : D → E) where
  relabel-Holds : {P : A → Type 0} (r : W × Result D A) → Holds P r → Holds P (relabel f r)
  relabel-Holds r (returns h) = returns h
  relabel-Holds r fails = fails

  pub lift-Ensures : (m : Action D W A) → Ensures (λ a. (w w' : W) × (m w ≡ (w', ok a))) (lift f m)
  lift-Ensures m = record { from = λ w. go w (m w) refl }
    where
      go :
          (w : W) (r : W × Result D A)
          → m w ≡ r
          → Holds (λ a. (w w' : W) × (m w ≡ (w', ok a))) (relabel f r)
      go w (w', ok a) e = returns (w, w', e)
      go w (w', err x) e = fails

  pub of_result-Ensures : (r : Result D A) → Ensures {E = E} {W = W} (λ a. r ≡ ok a) (of_result f r)
  of_result-Ensures (ok a) = done refl
  of_result-Ensures (err e) = failed
