-- ===== src/Tests/Risk.antt =====
-- The risk gates at a concrete intent.
use binance_future_agent.Base.{
  any, List, ◌==◌, String, Bool, true, false, some, [], ◌∷◌, ◌≡◌, ◌↔◌, ◌⊎◌, refl, is_empty,
  contains, NoRepeats,
}
use binance_future_agent.Base.Fixed.{fixed, fixed_ops, amount}
use binance_future_agent.Base.Text.{text_ops}
use binance_future_agent.Config.{config_ops, live, setting}
use binance_future_agent.Base.Json.{json_ops}
use binance_future_agent.Models.{model_ops, OrderIntent}
use binance_future_agent.Decision.{validate_ops}
use binance_future_agent.Risk.{
  evaluate_intent, all_reasons, decision_reasons, size_reasons, position_reasons, portfolio_reasons,
  balance_short, risk_too_high, live_reasons, duplicate_exposure, opposite_exposure, opposite_of,
  direction_of, effective_max_open_positions, effective_same_direction_cap, is_micro_grid_intent,
  margin_after_entry, notional_after_entry, same_direction_notional_after_entry, risk_warnings,
  testnet_flag, kill_switch_active, evaluate_risk,
}
use binance_future_agent.Risk.Clear.{IsClear}
use binance_future_agent.Risk.Gates.{evaluate_accepts_iff, evaluate_reasons, kill_switch_stops}
use binance_future_agent.Tests.Data.{limits, state, live_config, intent, validation}

abbrev no_file : String → Bool
no_file path = false

abbrev every_file : String → Bool
every_file path = true

evaluate_accepts_iff_example :
    let verdict =
      evaluate_risk fixed no_file limits state live live_config "2026-01-01T00:00:00Z"
        (some intent)
        validation in
    (verdict.accepted ≡ true)
    ↔ IsClear fixed no_file limits state live live_config "2026-01-01T00:00:00Z" intent validation
evaluate_accepts_iff_example =
    evaluate_accepts_iff fixed no_file limits state live live_config "2026-01-01T00:00:00Z" intent
      validation

evaluate_reasons_example :
    let verdict =
      evaluate_risk fixed no_file limits state live live_config "2026-01-01T00:00:00Z"
        (some intent)
        validation in
    NoRepeats verdict.reason_codes
    × (is_empty verdict.reason_codes ≡ false)
    × ((verdict.accepted ≡ false) ⊎ (verdict.reason_codes ≡ "risk_accepted" ∷ []))
evaluate_reasons_example =
    evaluate_reasons fixed no_file limits state live live_config "2026-01-01T00:00:00Z" intent
      validation

switch_active : kill_switch_active every_file (setting live_config "BFA_KILL_SWITCH_FILE" "") ≡ true
unfolding config_ops text_ops ◌==◌
switch_active = refl

kill_switch_stops_example :
    let verdict =
      evaluate_risk fixed every_file limits state live live_config "2026-01-01T00:00:00Z"
        (some intent)
        validation in
    (verdict.accepted ≡ false) × (contains verdict.reason_codes "kill_switch_active" ≡ true)
kill_switch_stops_example =
    kill_switch_stops fixed every_file limits state live live_config "2026-01-01T00:00:00Z" intent
      validation refl switch_active

reasons_on : OrderIntent fixed → List String
unfolding evaluate_risk evaluate_intent all_reasons decision_reasons size_reasons position_reasons
    portfolio_reasons balance_short risk_too_high live_reasons duplicate_exposure opposite_exposure
    opposite_of direction_of effective_max_open_positions effective_same_direction_cap
    is_micro_grid_intent margin_after_entry notional_after_entry same_direction_notional_after_entry
    risk_warnings testnet_flag config_ops model_ops json_ops text_ops fixed_ops validate_ops any
    ◌==◌
reasons_on proposed =
    (evaluate_risk fixed no_file limits state live live_config "2026-01-01T00:00:00Z"
      (some proposed) validation).reason_codes

-- The intent passes every gate, and is rejected for its size alone once it is twice the cap.
intent_accepted : reasons_on intent ≡ "risk_accepted" ∷ []
unfolding reasons_on
intent_accepted = refl

large_intent_rejected :
    reasons_on (record intent { notional_usdt = amount 400 0 }) ≡ "notional_exceeds_cap" ∷ []
unfolding reasons_on
large_intent_rejected = refl
