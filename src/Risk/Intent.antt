-- ===== src/Risk/Intent.antt =====
-- src/bfa/execution/risk.py: `intent_from_ai_decision`.
use binance_future_agent.Base.{
  String, true, false, Option, none, some, List, [], ◌∷◌, ◌==◌, if◌then◌else◌, is_empty,
}
use binance_future_agent.Base.Int.{ℤ}
use binance_future_agent.Base.Float.{Float}
use binance_future_agent.Base.Text.{upper}
use binance_future_agent.Base.Json.{Json, Dict}
use binance_future_agent.Config.{Mode}
use binance_future_agent.Models.{
  AiTradeDecision, DecisionValidationResult, RiskLimits, OrderIntent, RiskDecision,
}
use binance_future_agent.Decimal.{Decimals}
use binance_future_agent.Filters.{SymbolExecutionFilters, FilteredOrderValues, apply}
use binance_future_agent.Risk.Reasons.{
  entry_order_type, entry_time_in_force, entry_limit_wait_seconds, with_route_metadata,
}

abbrev pub rejected : List String → RiskDecision
rejected reasons = record { accepted = false; reason_codes = reasons; warnings = [] }

-- `_order_side`; nothing for a `ValueError`.
unfoldable pub order_side : String → Option String
order_side side =
    if side == "long" then some "BUY" else if side == "short" then some "SELL" else none

module _ (fl : Float) (dec : Decimals fl) where
  open fl use {F, div, trunc}

  -- The values that an intent takes, after the filters if there are any.
  unfoldable pub filtered_values :
      Option SymbolExecutionFilters → F → F → F → F → FilteredOrderValues fl
  filtered_values none entry stop target notional = record {
    quantity = div notional entry;
    entry_price = entry;
    stop_price = stop;
    target_price = target;
    notional_usdt = notional;
    rejection_reasons = [];
  }
  filtered_values (some f) entry stop target notional =
      apply fl dec f (div notional entry) entry stop target

  hold_json : Option ℤ → Json fl
  hold_json none = Json.null
  hold_json (some n) = Json.int n

  -- The `metadata` of a new intent.
  unfoldable pub intent_metadata : AiTradeDecision fl → Dict fl
  unfolding hold_json
  intent_metadata d = with_route_metadata fl d.reasons (
      Dict.field "ai_confidence" (Json.num d.confidence) (
        Dict.field "ai_side" (Json.str d.side)
          (Dict.field "hold_time_minutes" (hold_json d.hold_time_minutes) Dict.end)))

  module _ (symbol : String) (limits : RiskLimits fl) (mode : Mode) (decided_at : String) where
    -- The intent, once its side and its leverage are known.
    unfoldable pub new_intent :
        AiTradeDecision fl → FilteredOrderValues fl → String → ℤ → OrderIntent fl
    new_intent d values side leverage = record {
      symbol = upper symbol;
      side = side;
      quantity = values.quantity;
      notional_usdt = values.notional_usdt;
      entry_price = values.entry_price;
      stop_price = values.stop_price;
      target_price = values.target_price;
      leverage = leverage;
      mode = mode;
      decided_at = decided_at;
      order_type = entry_order_type d.reasons;
      time_in_force = entry_time_in_force d.reasons;
      limit_wait_seconds = entry_limit_wait_seconds fl d.reasons;
      reduce_only = false;
      reason_codes = d.reasons;
      metadata = intent_metadata d;
    }

    -- What `intent_from_ai_decision` returns: an intent if there is one, and a decision.
    abbrev pub IntentResult : Type 0
    IntentResult = Option (OrderIntent fl) × RiskDecision

    abbrev intent_verdict : List String → RiskDecision
    intent_verdict rejections =
        if is_empty rejections
        then record { accepted = true; reason_codes = "intent_created" ∷ []; warnings = [] }
        else rejected rejections

    unfoldable pub build_intent :
        AiTradeDecision fl → FilteredOrderValues fl → Option String → Option ℤ → Option IntentResult
    build_intent d values (some side) (some leverage) =
        some (some (new_intent d values side leverage), intent_verdict values.rejection_reasons)
    build_intent d values _ _ = none

    unfoldable pub intent_of_values :
        AiTradeDecision fl
        → Option SymbolExecutionFilters
        → Option F
        → Option F
        → Option F
        → Option F
        → Option IntentResult
    intent_of_values d filters (some entry) (some stop) (some target) (some notional) =
        build_intent d (filtered_values filters entry stop target notional) (order_side d.side)
          (trunc limits.max_leverage)
    intent_of_values d filters _ _ _ _ =
        some (none, rejected ("trade_decision_missing_prices" ∷ []))

    unfoldable pub intent_of_decision :
        Option (AiTradeDecision fl) → Option SymbolExecutionFilters → Option IntentResult
    intent_of_decision none filters = some (none, rejected ("ai_decision_not_accepted" ∷ []))
    intent_of_decision (some d) filters =
        if d.decision == "trade"
        then intent_of_values d filters d.entry_price d.stop_price d.target_price d.notional_usdt
        else some (none, rejected ("ai_decision_pass" ∷ []))

    -- `intent_from_ai_decision`; nothing for an exception, of a side that is neither long nor
    -- short or a leverage that is no number. The division by the entry price is that of the float
    -- interface; an entry price of zero, which no accepted decision has, is not told apart.
    unfoldable pub intent_from_ai_decision :
        DecisionValidationResult fl → Option SymbolExecutionFilters → Option IntentResult
    intent_from_ai_decision validation filters =
        if validation.accepted
        then intent_of_decision validation.decision filters
        else some (none, rejected ("ai_decision_not_accepted" ∷ []))
