-- ===== src/Models.antt =====
-- src/bfa/execution/models.py and the decision types of src/bfa/ai/schema.py.
pub mod Payload
pub mod RoundTrip
use mathlib.Core.List.{foldl}
use binance_future_agent.Base.{String, Bool, Option, List, map, if◌then◌else◌, or_default}
use binance_future_agent.Base.Int.{ℤ}
use binance_future_agent.Base.Float
use binance_future_agent.Base.Float.{Float}
use binance_future_agent.Base.Json.{Dict, float, get}
use binance_future_agent.Config.{Mode, config_ops}

module _ (fl : Float) where
  open fl use {F}

  pub record AiTradeDecision : Type 0 where
    pub decision : String
    pub side : String
    pub confidence : F
    pub entry_price : Option F
    pub stop_price : Option F
    pub target_price : Option F
    pub notional_usdt : Option F
    pub hold_time_minutes : Option ℤ
    pub reasons : List String

  pub record DecisionValidationResult : Type 0 where
    pub accepted : Bool
    pub decision : Option AiTradeDecision
    pub validation_errors : List String
    pub validation_warnings : List String

  -- `sizing`, which only `to_dict` reads, is left out.
  pub record RiskLimits : Type 0 where
    pub account_capital_usdt : F
    pub max_leverage : F
    pub max_position_notional_usdt : F
    pub max_risk_per_trade_usdt : F
    pub max_daily_loss_usdt : F
    pub max_open_positions : ℤ

  pub record OrderIntent : Type 0 where
    pub symbol : String
    pub side : String
    pub quantity : F
    pub notional_usdt : F
    pub entry_price : F
    pub stop_price : F
    pub target_price : F
    pub leverage : ℤ
    pub mode : Mode
    pub decided_at : String
    pub order_type : String
    pub time_in_force : Option String
    pub limit_wait_seconds : Option ℤ
    pub reduce_only : Bool
    pub reason_codes : List String
    pub metadata : Dict fl

  pub record RiskState : Type 0 where
    pub active_positions : ℤ
    pub active_exposures : List (Dict fl)
    pub manual_exposures : List (Dict fl)
    pub account_available_balance_usdt : Option F
    pub account_total_wallet_balance_usdt : Option F
    pub daily_realized_pnl_usdt : F
    pub cooldown_until : Option String

pub record RiskDecision : Type 0 where
  pub accepted : Bool
  pub reason_codes : List String
  pub warnings : List String

module _ (fl : Float) where
  open fl use {F, add, sub, div, lt, le, of_int, lit}

  -- `intent.estimated_initial_margin_usdt`
  unfoldable pub estimated_initial_margin : OrderIntent fl → F
  estimated_initial_margin intent =
      if le (of_int intent.leverage) (lit 0 0)
      then intent.notional_usdt
      else div intent.notional_usdt (of_int intent.leverage)

  -- `state.daily_loss_usdt`
  unfoldable pub daily_loss : RiskState fl → F
  daily_loss state = Float.abs fl (Float.min fl state.daily_realized_pnl_usdt (lit 0 0))

  -- `sum(values)`
  unfoldable pub total : List F → F
  total = foldl add (lit 0 0)

  -- `_float_or_zero(item.get(key))`
  unfoldable pub float_or_zero : Dict fl → String → F
  float_or_zero item key = or_default (float (get item key)) (lit 0 0)

  -- `_exposure_margin`
  unfoldable pub exposure_margin : Dict fl → F
  exposure_margin item =
      let leverage = float_or_zero item "leverage" in
      let estimate =
        if le leverage (lit 0 0)
        then lit 0 0
        else div (float_or_zero item "notional_usdt") leverage in
      or_default (float (get item "initial_margin_usdt")) estimate

  -- The properties of `RiskState` that add up its exposures.
  unfoldable pub active_notional : RiskState fl → F
  active_notional state =
      total (map (λ item. float_or_zero item "notional_usdt") state.active_exposures)

  unfoldable pub active_initial_margin : RiskState fl → F
  active_initial_margin state = total (map exposure_margin state.active_exposures)

  unfoldable pub manual_initial_margin : RiskState fl → F
  manual_initial_margin state = total (map exposure_margin state.manual_exposures)

-- A run on the models opens all of these with this one name.
unfoldable pub model_ops : Unit {0}
unfolding estimated_initial_margin daily_loss total float_or_zero exposure_margin active_notional
    active_initial_margin manual_initial_margin config_ops
model_ops = tt
