-- ===== src/Executor/Guarded.antt =====
-- The protection of an entry: src/bfa/execution/executor.py, the end of `ExecutionEngine.run`.
use binance_future_agent.Base.{String, true, Option, none, some, ◌≡◌, refl, ◌⊎◌, inl, inr, arith}
use binance_future_agent.Base.Float.{Float}
use binance_future_agent.Base.Json.{Dict}
use binance_future_agent.Config.{protective_orders_required}
use binance_future_agent.Models.{OrderIntent, RiskDecision}
use binance_future_agent.Executor.Client.{SignedError, Exchange, World, Outcome, ok, err}
use binance_future_agent.Executor.Protect.{
  Resolution, no_matching_position, existing_present, fallback_submitted, fallback_stop_submitted,
  emergency_closed, emergency_close_failed,
}
use binance_future_agent.Executor.Resolve.{
  place_protective_orders, replace_conflicting_orders, resolve_protective_failure,
}
use binance_future_agent.Executor.Protection.{Resolved, resolve_protective_failure-Resolved}
use binance_future_agent.Executor.Recovered.{
  IsIdentifying, BothPlaced, Placed, place-Placed, Recovered, replace-Recovered,
}
use binance_future_agent.Executor.Entered.{
  Engine, ExecutionResult, finish, submitted_as, status_after_failure, after_failure, recovered_as,
  protective_error, protect_entry,
}

-- What the status of a result says of the failure, that of the entry being given.
abbrev pub Tells : Resolution → String → String → Type 0
Tells no_matching_position entry status = status ≡ "protective_order_failed_no_position"
Tells existing_present entry status = status ≡ entry
Tells fallback_submitted entry status = status ≡ entry
Tells fallback_stop_submitted entry status = status ≡ "protective_order_degraded_stop_only"
Tells emergency_closed entry status = status ≡ "protective_order_failed_closed"
Tells emergency_close_failed entry status = status ≡ "protective_order_failed_open"

status_after_failure-Tells :
    (resolution : Resolution) (entry : String)
    → Tells resolution entry (status_after_failure resolution entry)
unfolding status_after_failure
status_after_failure-Tells no_matching_position entry = refl
status_after_failure-Tells existing_present entry = refl
status_after_failure-Tells fallback_submitted entry = refl
status_after_failure-Tells fallback_stop_submitted entry = refl
status_after_failure-Tells emergency_closed entry = refl
status_after_failure-Tells emergency_close_failed entry = refl

module _ {fl : Float} {ex : Exchange fl} (engine : Engine fl) (side : Option String)
    (status : String) (intent : OrderIntent fl) (risk : RiskDecision) where
  -- A run that returned with its entry protected, or with a status that tells how the failure of
  -- the protective orders was resolved.
  abbrev pub Guarded : Outcome (Option (ExecutionResult fl)) × World fl ex → Type 0
  Guarded (err e, w) = ⊥
  Guarded (ok none, w) = ⊥
  Guarded (ok (some result), w) =
      (result.submitted ≡ true)
      × (result.intent ≡ some intent)
      × (((result.status ≡ status) × BothPlaced engine.config intent w)
          ⊎ ((before : World fl ex) × (resolution : Resolution) × (after : World fl ex) × Resolved
                engine.config intent side before (ok resolution, after)
              × (w.calls ≡ after.calls)
              × Tells resolution status result.status))

  submitted_as-Guarded :
      (w : World fl ex)
      → BothPlaced engine.config intent w
      → Guarded (submitted_as engine status intent risk w)
  unfolding submitted_as finish
  submitted_as-Guarded w placed = (refl, refl, inl (refl, placed))

  -- After a resolution that is true of what was done.
  resolution-Guarded :
      (before : World fl ex) (result : Outcome Resolution × World fl ex)
      → Resolved engine.config intent side before result
      → Guarded (elim result.0 [
        | ok resolution ↦
            submitted_as engine (status_after_failure resolution status) intent risk result.1
        | err e ↦ (err e, result.1)
      ])
  unfolding submitted_as finish
  resolution-Guarded before (ok resolution, after) h = (
    refl,
    refl,
    inr (before, resolution, after, h, refl, status_after_failure-Tells resolution status),
  )
  resolution-Guarded before (err e, after) h = absurd h

  after_failure-Guarded :
      (w : World fl ex) → Guarded (after_failure engine side status intent risk w)
  unfolding after_failure
  after_failure-Guarded w =
      resolution-Guarded w (resolve_protective_failure engine.config intent side w)
        (resolve_protective_failure-Resolved engine.config intent side w)

  recovery-Guarded :
      (result : Outcome (Option (Dict fl)) × World fl ex)
      → Recovered engine.config intent result
      → Guarded (elim result.0 [
        | ok placed ↦ recovered_as engine placed status intent risk result.1
        | err again ↦ after_failure engine side status intent risk result.1
      ])
  unfolding recovered_as
  recovery-Guarded (ok none, after) h = absurd h
  recovery-Guarded (ok (some placed), after) h = submitted_as-Guarded after h
  recovery-Guarded (err e, after) h = after_failure-Guarded after

  protective_error-Guarded :
      (e : SignedError) (w : World fl ex)
      → IsIdentifying ex
      → Guarded (protective_error engine side status intent risk e w)
  unfolding protective_error
  protective_error-Guarded e w known = ground (
    arith,
    after_failure-Guarded w,
    recovery-Guarded (replace_conflicting_orders engine.config intent w)
        (replace-Recovered engine.config intent w known),
  )

  placement-Guarded :
      (result : Outcome (Dict fl) × World fl ex)
      → Placed engine.config intent result
      → IsIdentifying ex
      → Guarded (elim result.0 [
        | ok placed ↦ submitted_as engine status intent risk result.1
        | err e ↦ protective_error engine side status intent risk e result.1
      ])
  placement-Guarded (ok placed, after) h known = submitted_as-Guarded after h
  placement-Guarded (err e, after) h known = protective_error-Guarded e after known

  -- Where protective orders are required, and every open order that the exchange lists has an
  -- identifier, and the client fails with `BinanceSignedError` alone, a run whose entry is in place
  -- returns, however the exchange behaves otherwise, with the intent as submitted. Either its status is the one that the entry had, and a stop order and a target
  -- order at the prices of the intent were accepted; or its status is that of one of the resolutions of
  -- the failure, which is true of the calls that were made.
  pub protect_entry-Guarded :
      (w : World fl ex)
      → protective_orders_required engine.config ≡ true
      → IsIdentifying ex
      → Guarded (protect_entry engine side status intent risk w)
  unfolding protect_entry
  protect_entry-Guarded w required known = ground (
    arith,
    placement-Guarded (place_protective_orders engine.config intent w)
        (place-Placed engine.config intent w) known,
  )
