-- ===== src/Lifecycle/Cleanup/Laws.antt =====
-- The order of cleaning up.
use ovm_next.Base.{List, [], ◌∷◌, ◌++◌, ◌≡◌, refl, ap, ◌∙◌}
use mathlib.Core.List.{reverse, reverse-cons}
use ovm_next.Lifecycle.Cleanup.{Callback, run_all, clean}

module _ {W : Type 0} where
  -- The functions run backwards, each on the world that the one added after it left.
  abbrev pub undo : List (Callback W) → W → W
  undo [] w = w
  undo (f ∷ fs) w = (f (undo fs w)).0

  run_all-append :
      (fs gs : List (Callback W)) (w : W) → run_all (fs ++ gs) w ≡ run_all gs (run_all fs w)
  unfolding run_all
  run_all-append [] gs w = refl
  run_all-append (f ∷ fs) gs w = run_all-append fs gs (f w).0

  run_all-nil : (w : W) → run_all [] w ≡ w
  unfolding run_all
  run_all-nil w = refl

  run_all-one : (f : Callback W) (w : W) → run_all (f ∷ []) w ≡ (f w).0
  unfolding run_all
  run_all-one f w = refl

  run_all-reverse : (fs : List (Callback W)) (w : W) → run_all (reverse fs) w ≡ undo fs w
  run_all-reverse [] w = run_all-nil w
  run_all-reverse (f ∷ fs) w =
      ap (λ l. run_all l w) (reverse-cons f fs)
      ∙ run_all-append (reverse fs) (f ∷ []) w
      ∙ run_all-one f (run_all (reverse fs) w)
      ∙ ap (λ v. (f v).0) (run_all-reverse fs w)

  -- Cleaning runs every function once, the one added last first, whether or not one of them fails;
  -- cleaning a second time runs none.
  pub clean-undo :
      (fs : List (Callback W)) (w : W)
      → (clean fs w ≡ ([], undo fs w)) × (clean (clean fs w).0 (clean fs w).1 ≡ ([], undo fs w))
  unfolding clean
  clean-undo fs w = (
    (λ i. ([], run_all-reverse fs w i)),
    (λ i. ([], run_all-nil (run_all (reverse fs) w) i)) ∙ (λ i. ([], run_all-reverse fs w i)),
  )
