-- ===== src/Lifecycle/Supervisor/Laws.antt =====
-- How many runs a supervisor makes.
use ovm_next.Base.{
  ℕ, zero, suc, ◌+◌, ◌≤◌, ◌<◌, Bool, true, false, not, ltb, ◌&&◌, if◌then◌else◌, Option, some, ◌≡◌,
  refl, arith,
}
use ovm_next.Lifecycle.Supervisor.{Policy, loop}

-- A result that is there and at most `n`.
abbrev pub IsAtMost : ℕ → Option ℕ → Type 0
IsAtMost n o = (runs : ℕ) × (o ≡ some runs) × (runs ≤ n)

some-IsAtMost : (n runs : ℕ) → runs ≤ n → IsAtMost n (some runs)
some-IsAtMost n runs h = (runs, refl, h)

if-IsAtMost :
    (n : ℕ) (b : Bool) (x y : Option ℕ)
    → IsAtMost n x
    → (b ≡ false → IsAtMost n y)
    → IsAtMost n (if b then x else y)
if-IsAtMost n true x y h k = h
if-IsAtMost n false x y h k = k refl

module _ (policy : Policy) (done_at_start done_waiting : ℕ → Bool) where
  loop_returns :
      (fuel restarts : ℕ)
      → 0 < policy.max_retries
      → restarts ≤ policy.max_retries
      → policy.max_retries < fuel + restarts
      → IsAtMost (suc policy.max_retries) (loop policy done_at_start done_waiting fuel restarts)
  unfolding loop
  loop_returns zero restarts h k l = absurd (omega arith)
  loop_returns (suc fuel) restarts h k l =
      let top = suc policy.max_retries in
      let now = some-IsAtMost top restarts (omega arith) in
      let after = some-IsAtMost top (suc restarts) (omega arith) in
      if-IsAtMost top (done_at_start restarts) _ _ now (λ _.
        if-IsAtMost top (not policy.restart) _ _ after (λ _.
          if-IsAtMost top (ltb 0 policy.max_retries && ltb policy.max_retries (suc restarts)) _ _
            after
            (λ more.
              if-IsAtMost top (done_waiting (suc restarts)) _ _ after
                (λ _. loop_returns fuel (suc restarts) h (ground arith) (omega arith)))))

-- A supervisor with a limit of retries above 0 returns, after at most one run more than the limit, whenever
-- its contexts end.
pub loop-runs :
    (policy : Policy) (done_at_start done_waiting : ℕ → Bool)
    → 0 < policy.max_retries
    → IsAtMost
        (suc policy.max_retries)
        (loop policy done_at_start done_waiting (suc policy.max_retries) 0)
loop-runs policy done_at_start done_waiting h =
    loop_returns policy done_at_start done_waiting (suc policy.max_retries) 0 h (omega arith)
      (omega arith)
