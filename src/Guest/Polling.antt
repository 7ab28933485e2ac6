-- ===== src/Guest/Polling.antt =====
-- The polling loops of the guest agent. Each waits in a `select` for a tick or for its context's end;
-- `tick` is that wait, with whether it was the tick. A loop takes fuel.
use ovm_next.Base.{
  ℕ, zero, suc, ◌≤◌, ◌<◌, Bool, true, false, if◌then◌else◌, Option, none, some, ◌≡◌, refl, arith,
}

pub data Polled (A : Type 0) : Type 0 where
  found : A → Polled A
  ended exhausted : Polled A

module _ {W A : Type 0} (tick : W → W × Bool) (attempt : W → W × Option A) where
  -- A round: the value that was found, or the next round.
  abbrev pub attempted : W × Option A → W × Polled A → W × Polled A
  attempted (w, some a) rest = (w, found a)
  attempted (w, none) rest = rest

  -- Each round waits, then tries.
  unfoldable pub poll : ℕ → W → W × Polled A
  poll zero w = (w, exhausted)
  poll (suc fuel) w =
      let v = (tick w).0 in
      let rest = poll fuel (attempt v).0 in
      if (tick w).1 then attempted (attempt v) rest else (v, ended)

  -- Each round tries, then waits.
  unfoldable pub retry : ℕ → W → W × Polled A
  retry zero w = (w, exhausted)
  retry (suc fuel) w =
      let v = (attempt w).0 in
      let rest = retry fuel (tick v).0 in
      attempted (attempt w) (if (tick v).1 then rest else ((tick v).0, ended))

  -- A context that ends: each tick uses up some of what is left, and nothing else adds to it.
  pub record IsEnding (left : W → ℕ) : Type 0 where
    pub ticks : (w : W) → (tick w).1 ≡ true → left (tick w).0 < left w
    pub attempts : (w : W) → left (attempt w).0 ≤ left w

  -- The loop returned, at a value with the property `P` or at the end of its context.
  pub data Settles (P : W → A → Type 0) (Q : W → Type 0) : W × Polled A → Type 0 where
    finds : {w : W} {a : A} → P w a → Settles P Q (w, found a)
    ends : {w : W} → Q w → Settles P Q (w, ended)

  module _ (left : W → ℕ) (ending : IsEnding left) (P : W → A → Type 0) (Q : W → Type 0)
      (ticks : (w : W) → Q w → Q (tick w).0)
      (finds_ : (w v : W) (a : A) → Q w → attempt w ≡ (v, some a) → P v a)
      (misses : (w : W) → Q w → Q (attempt w).0) where
    attempted-Settles :
        (w : W) (x : W × Option A) (rest : W × Polled A)
        → Q w
        → attempt w ≡ x
        → Settles P Q rest
        → Settles P Q (attempted x rest)
    attempted-Settles w (v, some a) rest q e h = finds (finds_ w v a q e)
    attempted-Settles w (v, none) rest q e h = h

    either :
        (b : Bool) (x y : W × Polled A)
        → (b ≡ true → Settles P Q x)
        → Settles P Q y
        → Settles P Q (if b then x else y)
    either true x y f h = f refl
    either false x y f h = h

    -- With fuel for each tick that is left the loop settles; `Q` holds of the world between rounds.
    pub poll-Settles : (fuel : ℕ) (w : W) → left w < fuel → Q w → Settles P Q (poll fuel w)
    unfolding poll
    poll-Settles zero w h q = absurd (omega arith)
    poll-Settles (suc fuel) w h q =
        let v = (tick w).0 in
        either (tick w).1 _ _
          (λ on. attempted-Settles v (attempt v) _ (ticks w q) refl (
            poll-Settles fuel (attempt v).0 (omega (arith, ending.ticks w on, ending.attempts v))
              (misses v (ticks w q))))
          (ends (ticks w q))

    pub retry-Settles : (fuel : ℕ) (w : W) → left w < fuel → Q w → Settles P Q (retry fuel w)
    unfolding retry
    retry-Settles zero w h q = absurd (omega arith)
    retry-Settles (suc fuel) w h q =
        let v = (attempt w).0 in
        attempted-Settles w (attempt w) _ q refl (
          either (tick v).1 _ _
            (λ on.
              retry-Settles fuel (tick v).0 (omega (arith, ending.ticks v on, ending.attempts w))
                (ticks v (misses w q)))
            (ends (ticks v (misses w q))))
