-- ===== src/Base/Action.antt =====
-- Fallible steps on a world `W`, which a failing step also leaves changed; errors are in `E`.
use ovm_next.Base.Outcome.{Result, ok, err}
use mathlib.Core.Path.{◌≡◌, refl}
use mathlib.Core.Bool.{Bool, true, false}

abbrev pub Action : Type 0 → Type 0 → Type 0 → Type 0
Action E W A = W → W × Result E A

module _ {E W A B : Type 0} where
  infixl 5 ◌>>=◌
  abbrev pub continue : W × Result E A → (A → Action E W B) → W × Result E B
  continue (w, ok a) f = f a w
  continue (w, err e) f = (w, err e)

  unfoldable pub ◌>>=◌ : Action E W A → (A → Action E W B) → Action E W B
  (m >>= f) w = continue (m w) f

  pub >>=-eq : (m : Action E W A) (f : A → Action E W B) (w : W) → (m >>= f) w ≡ continue (m w) f
  unfolding ◌>>=◌
  >>=-eq m f w = refl

  continue-eq-ok :
      (r : W × Result E A) (f : A → Action E W B) {b : B} {w' : W}
      → continue r f ≡ (w', ok b)
      → (a : A) × (v : W) × (r ≡ (v, ok a)) × (f a v ≡ (w', ok b))
  continue-eq-ok (v, ok a) f e = (a, v, refl, e)
  continue-eq-ok (v, err x) f e = cc

  -- A sequence that succeeds is one of two steps that succeed.
  pub >>=-eq-ok :
      (m : Action E W A) (f : A → Action E W B) (w : W) {b : B} {w' : W}
      → (m >>= f) w ≡ (w', ok b)
      → (a : A) × (v : W) × (m w ≡ (v, ok a)) × (f a v ≡ (w', ok b))
  unfolding ◌>>=◌
  >>=-eq-ok m f w e = continue-eq-ok (m w) f e

abbrev pub pure : {E W A : Type 0} → A → Action E W A
pure a w = (w, ok a)

abbrev pub fail : {E W A : Type 0} → E → Action E W A
fail e w = (w, err e)

pub pure-eq-ok :
    {E W A : Type 0} (a : A) {b : A} (w : W) {w' : W}
    → pure {E = E} a w ≡ (w', ok b)
    → (w ≡ w') × (a ≡ b)
pure-eq-ok a w e = (cc, cc)

-- The outcome of a system call that may fail.
abbrev pub outcome : {E W : Type 0} → E → W × Bool → W × Result E (Unit {0})
outcome e (w, true) = (w, ok tt)
outcome e (w, false) = (w, err e)

abbrev pub try : {E W : Type 0} → E → (W → W × Bool) → Action E W (Unit {0})
try e call w = outcome e (call w)

outcome-eq-ok :
    {E W : Type 0} (e : E) (r : W × Bool) {w' : W} → outcome e r ≡ (w', ok tt) → r ≡ (w', true)
outcome-eq-ok e (w, true) h = cc
outcome-eq-ok e (w, false) h = cc

pub try-eq-ok :
    {E W : Type 0} (e : E) (call : W → W × Bool) (w : W) {w' : W}
    → try e call w ≡ (w', ok tt)
    → call w ≡ (w', true)
try-eq-ok e call w h = outcome-eq-ok e (call w) h

-- A step with errors of one kind among steps with errors of another.
abbrev pub relabel : {D E W A : Type 0} → (D → E) → W × Result D A → W × Result E A
relabel f (w, ok a) = (w, ok a)
relabel f (w, err e) = (w, err (f e))

abbrev pub lift : {D E W A : Type 0} → (D → E) → Action D W A → Action E W A
lift f m w = relabel f (m w)

relabel-eq-ok :
    {D E W A : Type 0} (f : D → E) (r : W × Result D A) {w' : W} {a : A}
    → relabel f r ≡ (w', ok a)
    → r ≡ (w', ok a)
relabel-eq-ok f (w, ok b) h = cc
relabel-eq-ok f (w, err e) h = cc

pub lift-eq-ok :
    {D E W A : Type 0} (f : D → E) (m : Action D W A) (w : W) {w' : W} {a : A}
    → lift f m w ≡ (w', ok a)
    → m w ≡ (w', ok a)
lift-eq-ok f m w h = relabel-eq-ok f (m w) h

-- A result that needs no world.
abbrev pub of_result : {D E W A : Type 0} → (D → E) → Result D A → Action E W A
of_result f (ok a) = pure a
of_result f (err e) = fail (f e)

pub of_result-eq-ok :
    {D E W A : Type 0} (f : D → E) (r : Result D A) (w : W) {w' : W} {a : A}
    → of_result f r w ≡ (w', ok a)
    → (w' ≡ w) × (r ≡ ok a)
of_result-eq-ok f (ok b) w h = (cc, cc)
of_result-eq-ok f (err e) w h = cc
