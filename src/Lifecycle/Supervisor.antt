-- ===== src/Lifecycle/Supervisor.antt =====
-- cmd/guest-agent/pkg/supervisor/supervisor.go: how often a supervised process is run. The contexts
-- are parameters: whether `ctx` is done at the start of a round, and whether it ends the wait behind
-- a run, both by the number of runs so far.
pub mod Laws
use ovm_next.Base.{
  ℕ, zero, suc, Bool, true, false, not, ltb, ◌&&◌, if◌then◌else◌, Option, none, some,
}

-- `Config.Restart` and `Config.MaxRetries`, of which 0 means without limit; a negative one counts as 0.
pub record Policy : Type 0 where
  pub restart : Bool
  pub max_retries : ℕ

module _ (policy : Policy) (done_at_start done_waiting : ℕ → Bool) where
  -- `loop` for at most `fuel` rounds; its `restarts` is also the number of runs so far. The result is
  -- the number of runs when it returns.
  unfoldable pub loop : ℕ → ℕ → Option ℕ
  loop zero restarts = none
  loop (suc fuel) restarts =
      let rest = loop fuel (suc restarts) in
      if done_at_start restarts
      then some restarts
      else if not policy.restart
      then some (suc restarts)
      else if ltb 0 policy.max_retries && ltb policy.max_retries (suc restarts)
      then some (suc restarts)
      else if done_waiting (suc restarts)
      then some (suc restarts)
      else rest
