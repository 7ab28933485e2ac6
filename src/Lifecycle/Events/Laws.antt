-- ===== src/Lifecycle/Events/Laws.antt =====
-- Every reporter is closed as often as it was added, and none gets an event after the closing.
use ovm_next.Base.{
  ℕ, ◌+◌, true, eqb, List, [], ◌∷◌, ◌++◌, map, if◌then◌else◌, ◌≡◌, refl, ap, ◌∙◌, arith, All,
  All-append, Bool-cases, inl, inr,
}
use ovm_next.Lifecycle.Events.{
  Dispatcher, Call, Operation, add_reporter, publish, close, perform, run,
}

-- How often a number is in a list.
abbrev pub count : ℕ → List ℕ → ℕ
count r [] = 0
count r (s ∷ ss) = (if eqb s r then 1 else 0) + count r ss

count-append : (r : ℕ) (l m : List ℕ) → count r (l ++ m) ≡ count r l + count r m
count-append r [] m = omega arith
count-append r (s ∷ l) m = omega (arith, count-append r l m)

module _ {E : Type 0} where
  -- How often a reporter was closed.
  abbrev pub closings : ℕ → List (Call E) → ℕ
  closings r [] = 0
  closings r (Call.report s evt ∷ calls) = closings r calls
  closings r (Call.close_reporter s ∷ calls) = (if eqb s r then 1 else 0) + closings r calls

  -- How often a reporter was added.
  abbrev pub additions : ℕ → List (Operation E) → ℕ
  additions r [] = 0
  additions r (Operation.adding s ∷ os) = (if eqb s r then 1 else 0) + additions r os
  additions r (Operation.publishing evt ∷ os) = additions r os
  additions r (Operation.closing ∷ os) = additions r os

  closings-append :
      (r : ℕ) (l m : List (Call E)) → closings r (l ++ m) ≡ closings r l + closings r m
  closings-append r [] m = omega arith
  closings-append r (Call.report s evt ∷ l) m = closings-append r l m
  closings-append r (Call.close_reporter s ∷ l) m = omega (arith, closings-append r l m)

  closings-reports :
      (r : ℕ) (evt : E) (rs : List ℕ) → closings r (map (λ s. Call.report s evt) rs) ≡ 0
  closings-reports r evt [] = refl
  closings-reports r evt (s ∷ rs) = closings-reports r evt rs

closings-all :
    (E : Type 0) (r : ℕ) (rs : List ℕ)
    → closings {E = E} r (map Call.close_reporter rs) ≡ count r rs
closings-all E r [] = refl
closings-all E r (s ∷ rs) = omega (arith, closings-all E r rs)

module _ {E : Type 0} where
  abbrev added_now : ℕ → Operation E → ℕ
  added_now r o = additions r (o ∷ [])

  -- One operation: what was held or is added is held or was closed.
  perform-closings :
      (r : ℕ) (o : Operation E) (d : Dispatcher)
      → count r (perform o d).0.reporters + closings r (perform o d).1
        ≡ count r d.reporters + added_now r o
  unfolding add_reporter publish close
  perform-closings r (Operation.adding s) d = elim (Bool-cases d.closed) [
    | inl h ↦ rw h (omega arith)
    | inr h ↦ rw h (omega (arith, count-append r d.reporters (s ∷ [])))
  ]
  perform-closings r (Operation.publishing evt) d = elim (Bool-cases d.closed) [
    | inl h ↦ rw h (omega arith)
    | inr h ↦ rw h (omega (arith, closings-reports r evt d.reporters))
  ]
  perform-closings r Operation.closing d = elim (Bool-cases d.closed) [
    | inl h ↦ rw h (omega arith)
    | inr h ↦ rw h (omega (arith, closings-all E r d.reporters))
  ]

  additions-cons :
      (r : ℕ) (o : Operation E) (os : List (Operation E))
      → additions r (o ∷ os) ≡ added_now r o + additions r os
  additions-cons r (Operation.adding s) os = omega arith
  additions-cons r (Operation.publishing evt) os = omega arith
  additions-cons r Operation.closing os = omega arith

  -- Over any history, a reporter was closed as often as it was added, but for the times that the
  -- dispatcher still holds it.
  pub run-closings :
      (r : ℕ) (os : List (Operation E)) (d : Dispatcher)
      → count r (run os d).0.reporters + closings r (run os d).1
        ≡ count r d.reporters + additions r os
  unfolding run
  run-closings r [] d = omega arith
  run-closings r (o ∷ os) d =
      let one = perform-closings r o d in
      let more = run-closings r os (perform o d).0 in
      let calls = closings-append r (perform o d).1 (run os (perform o d).0).1 in
      omega (arith, additions-cons r o os)

  abbrev pub IsClosing : Call E → Type 0
  IsClosing (Call.report s evt) = ⊥
  IsClosing (Call.close_reporter s) = Unit

  perform_closed :
      (o : Operation E) (d : Dispatcher)
      → d.closed ≡ true
      → ((perform o d).0 ≡ d) × All IsClosing (perform o d).1
  unfolding add_reporter publish close
  perform_closed (Operation.adding s) d h = rw h (refl, (tt, tt))
  perform_closed (Operation.publishing evt) d h = rw h (refl, tt)
  perform_closed Operation.closing d h = rw h (refl, tt)

  -- A dispatcher that is closed stays as it is, and no reporter gets an event from then on.
  pub run_closed :
      (os : List (Operation E)) (d : Dispatcher)
      → d.closed ≡ true
      → ((run os d).0 ≡ d) × All IsClosing (run os d).1
  unfolding run
  run_closed [] d h = (refl, tt)
  run_closed (o ∷ os) d h =
      let (same, calls) = perform_closed o d h in
      let (same', more) = run_closed os (perform o d).0 (ap Dispatcher.closed same ∙ h) in
      (same' ∙ same, All-append IsClosing (perform o d).1 (run os (perform o d).0).1 calls more)
