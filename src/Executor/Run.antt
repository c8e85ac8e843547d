-- ===== src/Executor/Run.antt =====
-- src/bfa/execution/executor.py: `ExecutionEngine.run`, up to the entry order.
use binance_future_agent.Base.{false, Option, none, some, [], ◌∷◌, if◌then◌else◌}
use binance_future_agent.Base.Float.{Float}
use binance_future_agent.Config.{Mode, dry_run, testnet, live, setting, parse_mode}
use binance_future_agent.Models.{OrderIntent, RiskDecision}
use binance_future_agent.Decimal.{Decimals}
use binance_future_agent.Risk.{rejected, intent_from_ai_decision, evaluate_risk}
use binance_future_agent.Executor.Client.{ok, err, Exchange, Action, send, pure, attempt, ◌>>=◌}
use binance_future_agent.Executor.Orders.{position_side}
use binance_future_agent.Executor.Margin.{
  MarginSetup, ensure_live_margin, check_live_available_balance,
}
use binance_future_agent.Executor.Entry.{submit_entry_order}
use binance_future_agent.Executor.Entered.{
  Engine, RunInput, Result, test_request, finish, reject, after_entry,
}

module _ {fl : Float} (engine : Engine fl) (input : RunInput fl) where
  -- The risk gates, on an intent.
  unfoldable pub gate : Mode → Option (OrderIntent fl) → RiskDecision
  gate mode intent =
      evaluate_risk fl engine.exists engine.limits input.risk_state mode engine.config input.now
        intent input.validation

module _ {fl : Float} {ex : Exchange fl} (dec : Decimals fl) (engine : Engine fl)
    (input : RunInput fl) where
  unfoldable pub enter : OrderIntent fl → RiskDecision → Action fl ex (Result fl)
  enter intent risk =
      let side = position_side fl intent engine.config in
      attempt (submit_entry_order dec engine.config input.filters side intent) >>= λ submission.
      elim submission [
        | ok entry ↦ after_entry engine side entry risk
        | err e ↦
            reject engine (some intent) (rejected ("entry_order_failed" ∷ []))
              (some "entry_order_error")
      ]

  -- The balance of an intent whose leverage the exchange lowered.
  unfoldable pub check_again : OrderIntent fl → RiskDecision → Action fl ex (Result fl)
  check_again intent risk = check_live_available_balance intent >>= λ balance.
      if balance.accepted
      then enter intent risk
      else reject engine (some intent) balance (some "margin_setup_balance_reject")

  -- The gates again, where the exchange lowered the leverage.
  unfoldable pub after_margin : Mode → MarginSetup fl → RiskDecision → Action fl ex (Result fl)
  after_margin mode setup risk =
      let again = gate engine input mode (some setup.intent) in
      if setup.downshifted
      then (if again.accepted
          then check_again setup.intent again
          else reject engine (some setup.intent) again (some "margin_setup_risk_reject"))
      else enter setup.intent risk

  unfoldable pub set_margin : Mode → OrderIntent fl → RiskDecision → Action fl ex (Result fl)
  set_margin mode intent risk = attempt (ensure_live_margin engine.config intent) >>= λ margin.
      elim margin [
        | ok setup ↦ after_margin mode setup risk
        | err e ↦
            reject engine (some intent) (rejected ("margin_setup_failed" ∷ []))
              (some "margin_setup_error")
      ]

  unfoldable pub run_live : Mode → OrderIntent fl → RiskDecision → Action fl ex (Result fl)
  run_live mode intent risk = check_live_available_balance intent >>= λ balance.
      if balance.accepted
      then set_margin mode intent risk
      else reject engine (some intent) balance none

  unfoldable pub run_testnet : OrderIntent fl → RiskDecision → Action fl ex (Result fl)
  run_testnet intent risk = send (test_request fl engine.config intent) >>= λ reply.
      finish engine "test_order_checked" false (some intent) risk (some "test_order")

  unfoldable pub with_client : OrderIntent fl → Action fl ex (Result fl) → Action fl ex (Result fl)
  with_client intent continue =
      if engine.has_client
      then continue
      else reject engine (some intent) (rejected ("missing_signed_client" ∷ [])) none

  -- What the mode makes of an accepted intent.
  unfoldable pub run_mode : Mode → OrderIntent fl → RiskDecision → Action fl ex (Result fl)
  run_mode dry_run intent risk = finish engine "dry_run" false (some intent) risk none
  run_mode testnet intent risk = with_client intent (run_testnet intent risk)
  run_mode live intent risk = with_client intent (run_live live intent risk)

  unfoldable pub run_gated : Mode → Option (OrderIntent fl) → Action fl ex (Result fl)
  run_gated mode none = reject engine none (gate engine input mode none) none
  run_gated mode (some intent) =
      let risk = gate engine input mode (some intent) in
      if risk.accepted then run_mode mode intent risk else reject engine (some intent) risk none

  unfoldable pub run_intent :
      Mode → Option (OrderIntent fl) × RiskDecision → Action fl ex (Result fl)
  run_intent mode (intent, verdict) =
      if verdict.accepted then run_gated mode intent else reject engine intent verdict none

  unfoldable pub run_built :
      Mode → Option (Option (OrderIntent fl) × RiskDecision) → Action fl ex (Result fl)
  run_built mode none = pure none
  run_built mode (some result) = run_intent mode result

  unfoldable pub run_parsed : Option Mode → Action fl ex (Result fl)
  run_parsed none = pure none
  run_parsed (some mode) = run_built mode (
      intent_from_ai_decision fl dec input.symbol engine.limits mode input.decided_at
        input.validation input.filters)

  -- `run`; nothing for a `ValueError`.
  unfoldable pub run : Action fl ex (Result fl)
  run = run_parsed (parse_mode (setting engine.config "BFA_MODE" ""))
