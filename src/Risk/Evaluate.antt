-- ===== src/Risk/Evaluate.antt =====
-- src/bfa/execution/risk.py: `evaluate_risk`. Whether a file exists is a parameter.
use binance_future_agent.Base.{
  String, Bool, true, false, not, ◌&&◌, ◌||◌, Option, none, some, List, [], ◌∷◌, ◌++◌, ◌==◌,
  if◌then◌else◌, is_empty, when, dedupe, text_lt,
}
use binance_future_agent.Base.Int.{pos, leb_ℤ}
use binance_future_agent.Base.Float.{Float}
use binance_future_agent.Base.Text.{lower, is_blank}
use binance_future_agent.Config.{
  Mode, live, AppConfig, setting, float_config, multi_position_enabled, opposite_positions_enabled,
}
use binance_future_agent.Models.{
  AiTradeDecision, DecisionValidationResult, RiskLimits, OrderIntent, RiskState, RiskDecision,
  daily_loss, estimated_initial_margin, manual_initial_margin,
}
use binance_future_agent.Decision.{estimate_stop_risk_usdt}
use binance_future_agent.Risk.Intent.{rejected}
use binance_future_agent.Risk.Exposure.{
  duplicate_exposure, opposite_exposure, effective_max_open_positions, effective_same_direction_cap,
  margin_after_entry, notional_after_entry, same_direction_notional_after_entry,
}

-- `_kill_switch_active`
abbrev pub kill_switch_active : (String → Bool) → String → Bool
kill_switch_active exists path = not (is_blank path) && exists path

abbrev pub is_live : Mode → Bool
is_live live = true
is_live _ = false

-- `a and b < c` for texts that may be missing or blank.
abbrev pub still_cooling : Option String → String → Bool
still_cooling none now = false
still_cooling (some until) now = not (is_blank until) && text_lt now until

module _ (fl : Float) (exists : String → Bool) where
  open fl use {F, lt, le, mul, of_int, lit}

  -- The reasons against the decision of the provider.
  unfoldable pub decision_reasons : DecisionValidationResult fl → List String
  decision_reasons v =
      when (not v.accepted) "ai_decision_not_accepted"
      ++ elim v.decision [ none ↦ [] | some d ↦ when (d.decision == "pass") "ai_decision_pass" ]

  module _ (limits : RiskLimits fl) (state : RiskState fl) (mode : Mode) (config : AppConfig)
      (now : String) (intent : OrderIntent fl) where
    -- The reasons against the size of the intent itself, and today's losses.
    unfoldable pub size_reasons : List String
    size_reasons =
        when (lt limits.max_position_notional_usdt intent.notional_usdt) "notional_exceeds_cap"
        ++ (when (lt limits.max_leverage (of_int intent.leverage)) "leverage_exceeds_cap"
            ++ when (le limits.max_daily_loss_usdt (daily_loss fl state)) "daily_loss_cap_reached")

    -- The reasons against one more position.
    unfoldable pub position_reasons : List String
    position_reasons =
        when (not (multi_position_enabled config) && leb_ℤ (pos 1) state.active_positions)
          "multi_position_disabled"
        ++ (when
              (leb_ℤ (effective_max_open_positions fl intent limits config) state.active_positions)
              "max_open_positions_reached"
            ++ (when (duplicate_exposure fl intent state) "duplicate_symbol_direction_exposure"
                ++ when
                    (opposite_exposure fl intent state && not (opposite_positions_enabled config))
                    "same_symbol_opposite_exposure_blocked"))

    -- `available is not None and margin > available`
    unfoldable pub balance_short : Option F → Bool
    balance_short none = false
    balance_short (some available) = lt available (estimated_initial_margin fl intent)

    -- The reasons against the portfolio after the entry.
    unfoldable pub portfolio_reasons : List String
    portfolio_reasons =
        when
          (lt (float_config fl config "BFA_MAX_PORTFOLIO_MARGIN_USDT")
            (margin_after_entry fl intent state))
          "portfolio_margin_cap_reached"
        ++ (when
              (lt
                (mul (float_config fl config "BFA_ACCOUNT_CAPITAL_USDT")
                  (float_config fl config "BFA_MAX_PORTFOLIO_MARGIN_FRACTION"))
                (margin_after_entry fl intent state))
              "portfolio_margin_fraction_reached"
            ++ (when (balance_short state.account_available_balance_usdt)
                  "account_available_balance_insufficient"
                ++ (when
                      (lt (float_config fl config "BFA_MAX_PORTFOLIO_NOTIONAL_USDT")
                        (notional_after_entry fl intent state))
                      "portfolio_notional_cap_reached"
                    ++ (when
                          (lt (effective_same_direction_cap fl intent config)
                            (same_direction_notional_after_entry fl intent state))
                          "same_direction_notional_cap_reached"
                        ++ when (still_cooling state.cooldown_until now) "cooldown_active"))))

    -- `estimate_stop_risk_usdt(decision) > max_risk_per_trade_usdt`, where there is a decision.
    unfoldable pub risk_too_high : Option (AiTradeDecision fl) → Bool
    risk_too_high none = false
    risk_too_high (some d) = lt limits.max_risk_per_trade_usdt (estimate_stop_risk_usdt fl d)

    -- The reasons that only live mode has.
    unfoldable pub live_reasons : List String
    live_reasons =
        if is_live mode
        then when (kill_switch_active exists (setting config "BFA_KILL_SWITCH_FILE" ""))
            "kill_switch_active"
          ++ when
              (is_blank (setting config "BINANCE_API_KEY" "")
                || is_blank (setting config "BINANCE_API_SECRET" ""))
              "missing_binance_credentials"
        else []

    unfoldable pub testnet_flag : Bool
    testnet_flag =
        let flag = lower (setting config "BINANCE_USE_TESTNET" "") in
        flag == "1" || (flag == "true" || flag == "yes")

    unfoldable pub risk_warnings : List String
    risk_warnings =
        when (lt (lit 0 0) (manual_initial_margin fl state)) "manual_margin_pressure_included"
        ++ when (is_live mode && testnet_flag) "live_mode_with_testnet_flag"

    unfoldable pub all_reasons : DecisionValidationResult fl → List String
    all_reasons v =
        decision_reasons v
        ++ (size_reasons
            ++ (position_reasons
                ++ (portfolio_reasons
                    ++ (when (risk_too_high v.decision) "risk_exceeds_cap" ++ live_reasons))))

    unfoldable pub evaluate_intent : DecisionValidationResult fl → RiskDecision
    evaluate_intent v =
        let reasons = all_reasons v in
        record {
          accepted = is_empty reasons;
          reason_codes = dedupe (if is_empty reasons then "risk_accepted" ∷ [] else reasons);
          warnings = risk_warnings;
        }

  -- `evaluate_risk`
  unfoldable pub evaluate_risk :
      RiskLimits fl
      → RiskState fl
      → Mode
      → AppConfig
      → String
      → Option (OrderIntent fl)
      → DecisionValidationResult fl
      → RiskDecision
  evaluate_risk limits state mode config now none v =
      rejected (dedupe (decision_reasons v ++ ("missing_order_intent" ∷ [])))
  evaluate_risk limits state mode config now (some intent) v =
      evaluate_intent limits state mode config now intent v
