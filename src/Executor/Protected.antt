-- ===== src/Executor/Protected.antt =====
-- The end of a run whose entry order was accepted: src/bfa/execution/executor.py,
-- `ExecutionEngine.run`.
use binance_future_agent.Base.{String, false, Option, none, some, ◌≡◌, ◌⊎◌}
use binance_future_agent.Base.Float.{Float}
use binance_future_agent.Base.Json.{Dict}
use binance_future_agent.Models.{OrderIntent, RiskDecision}
use binance_future_agent.Executor.Client.{Exchange, World, Outcome, ok, err, SignedError}
use binance_future_agent.Executor.Limit.{wait_for_entry, resolve_limit_entry}
use binance_future_agent.Executor.Guarded.{Guarded}
use binance_future_agent.Executor.Entered.{Engine, ExecutionResult}
use binance_future_agent.Executor.Settled.{IsEntered, IsUnfilled, IsUnknown}

module _ {fl : Float} {ex : Exchange fl} (engine : Engine fl) (intent : OrderIntent fl)
    (id : String) (start : World fl ex) where
  -- An entry that the run reports as not submitted, truly: the wait ended with a reply, and nothing was
  -- executed; or the wait failed, and the order was cancelled, or the status tells that this failed.
  abbrev pub NotEntered : ExecutionResult fl → World fl ex → Type 0
  NotEntered result w =
      (result.submitted ≡ false)
      × (((result.status ≡ "entry_order_expired_canceled")
            × ((latest : Dict fl) × ((wait_for_entry engine.config intent engine.polls id start).0
                  ≡ ok latest)
                × IsUnfilled engine.config intent id latest w))
          ⊎ ((e : SignedError) × ((resolve_limit_entry engine.config intent engine.polls id start).0
                ≡ err e)
              × IsUnknown engine.config intent id result.status w))

  -- A run that returned with its entry guarded, under a status of an entry, or with none.
  abbrev pub Protected : Outcome (Option (ExecutionResult fl)) × World fl ex → Type 0
  Protected (err e, w) = ⊥
  Protected (ok none, w) = ⊥
  Protected (ok (some result), w) =
      ((side : Option String) × (status : String) × (active : OrderIntent fl)
        × (risk : RiskDecision) × IsEntered status
        × Guarded engine side status active risk (ok (some result), w))
      ⊎ NotEntered result w
