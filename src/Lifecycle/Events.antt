-- ===== src/Lifecycle/Events.antt =====
-- `eventDispatcher` of pkg/librevm/events.go. A reporter is known by a number; the calls that it gets
-- are listed in their order. The locks make each operation one step.
pub mod Laws
use ovm_next.Base.{
  ℕ, zero, suc, ◌+◌, Bool, true, false, eqb, List, [], ◌∷◌, ◌++◌, map, if◌then◌else◌,
}

pub record Dispatcher : Type 0 where
  pub reporters : List ℕ
  pub closed : Bool

pub data Call (E : Type 0) : Type 0 where
  report : ℕ → E → Call E
  close_reporter : ℕ → Call E

module _ {E : Type 0} where
  -- `addReporter`
  unfoldable pub add_reporter : ℕ → Dispatcher → Dispatcher × List (Call E)
  add_reporter r d =
      if d.closed
      then (d, close_reporter r ∷ [])
      else (record d { reporters = d.reporters ++ r ∷ [] }, [])

  -- `publish`
  unfoldable pub publish : E → Dispatcher → Dispatcher × List (Call E)
  publish evt d = if d.closed then (d, []) else (d, map (λ r. report r evt) d.reporters)

  -- `close`
  unfoldable pub close : Dispatcher → Dispatcher × List (Call E)
  close d =
      if d.closed
      then (d, [])
      else (record { reporters = []; closed = true }, map close_reporter d.reporters)

pub data Operation (E : Type 0) : Type 0 where
  adding : ℕ → Operation E
  publishing : E → Operation E
  closing : Operation E

module _ {E : Type 0} where
  abbrev pub perform : Operation E → Dispatcher → Dispatcher × List (Call E)
  perform (adding r) = add_reporter r
  perform (publishing evt) = publish evt
  perform closing = close

  -- A history of operations, in the order in which the locks let them through.
  unfoldable pub run : List (Operation E) → Dispatcher → Dispatcher × List (Call E)
  run [] d = (d, [])
  run (o ∷ os) d =
      let (d', calls) = perform o d in let (d'', more) = run os d' in (d'', calls ++ more)

abbrev pub no_reporters : Dispatcher
no_reporters = record { reporters = []; closed = false }
