-- ===== src/Lifecycle/Cleanup.antt =====
-- pkg/system/callback.go: cleanup functions, which run once, the last one added first. The world that
-- they act on is a parameter; the result of a function is whether it failed, which is only logged.
pub mod Laws
use ovm_next.Base.{Bool, List, [], ◌∷◌, ◌++◌, Option, none, some}
use mathlib.Core.List.{reverse}

module _ (W : Type 0) where
  -- A function that `Add` takes, `none` where it is `nil`.
  abbrev pub Callback : Type 0
  Callback = W → W × Bool

module _ {W : Type 0} where
  -- `Add`: the functions with a new one behind them. A nil list and an empty one clean alike.
  unfoldable pub add : Option (Callback W) → List (Callback W) → List (Callback W)
  add none funcs = funcs
  add (some f) funcs = funcs ++ f ∷ []

  unfoldable pub run_all : List (Callback W) → W → W
  run_all [] w = w
  run_all (f ∷ fs) w = run_all fs (f w).0

  -- `clean`, which is `DoClean`: the functions that are left, and the world behind.
  unfoldable pub clean : List (Callback W) → W → List (Callback W) × W
  clean funcs w = ([], run_all (reverse funcs) w)

  -- `CleanIfErr`: `failed` is whether the error is set.
  abbrev pub clean_if : Bool → List (Callback W) → W → List (Callback W) × W
  clean_if Bool.true funcs w = clean funcs w
  clean_if Bool.false funcs w = (funcs, w)
