-- ===== src/Tests/Data.antt =====
-- The data of the runs: numbers of eight places, a symbol with its filters, a decision of the
-- provider, and the limits and the state that it meets.
use binance_future_agent.Base.{◌-◌, ◌^◌, true, false, none, some, [], ◌∷◌, nat_eq, if◌then◌else◌}
use binance_future_agent.Base.Int.{pos, quot_ℕ}
use binance_future_agent.Base.Fixed.{fixed, amount}
use binance_future_agent.Base.Json.{Json, Items, Dict}
use binance_future_agent.Config.{AppConfig, dry_run}
use binance_future_agent.Models.{
  RiskLimits, RiskState, OrderIntent, AiTradeDecision, DecisionValidationResult,
}
use binance_future_agent.Decimal.{Decimals}
use binance_future_agent.Filters.{SymbolExecutionFilters}
use binance_future_agent.Decision.{AiDecisionContext}

abbrev pub exact : Decimals fixed
exact = record {
  places = 8;
  of_float = λ x. elim x [ none ↦ pos 0 | some n ↦ n ];
  to_float = λ places n. if nat_eq places 8 then some n else some (quot_ℕ n (10 ^ (places - 8)));
}

-- A tick of 0.1, steps of 0.001 and a least notional of 5.
abbrev pub btc : SymbolExecutionFilters
btc = record {
  symbol = "BTCUSDT";
  tick_size = some (pos 10000000);
  step_size = some (pos 100000);
  min_qty = some (pos 100000);
  max_qty = some (pos 100000000000);
  min_notional = some (pos 500000000);
}

abbrev pub limits : RiskLimits fixed
limits = record {
  account_capital_usdt = amount 1000 0;
  max_leverage = amount 10 0;
  max_position_notional_usdt = amount 200 0;
  max_risk_per_trade_usdt = amount 10 0;
  max_daily_loss_usdt = amount 50 0;
  max_open_positions = pos 3;
}

abbrev pub state : RiskState fixed
state = record {
  active_positions = pos 0;
  active_exposures = [];
  manual_exposures = [];
  account_available_balance_usdt = some (amount 500 0);
  account_total_wallet_balance_usdt = none;
  daily_realized_pnl_usdt = amount 0 0;
  cooldown_until = none;
}

abbrev pub payload : Dict fixed
payload = Dict.field "decision" (Json.str "trade") (
    Dict.field "side" (Json.str "long") (
      Dict.field "confidence" (Json.num (amount 8 1)) (
        Dict.field "entry_price" (Json.int (pos 100)) (
          Dict.field "stop_price" (Json.int (pos 98)) (
            Dict.field "target_price" (Json.int (pos 105)) (
              Dict.field "notional_usdt" (Json.int (pos 100)) (
                Dict.field "hold_time_minutes" (Json.int (pos 30)) (
                  Dict.field "reasons" (Json.arr (Items.cons (Json.str "trend") Items.nil))
                    Dict.end))))))))

abbrev pub context : AiDecisionContext fixed
context = record {
  candidate =
      Dict.field "features"
        (Json.obj (Dict.field "reference_price" (Json.num (amount 1005 1)) Dict.end)) Dict.end;
  risk_limits = limits;
  quant_setup = none;
}

abbrev pub trade : AiTradeDecision fixed
trade = record {
  decision = "trade";
  side = "long";
  confidence = amount 8 1;
  entry_price = some (amount 100 0);
  stop_price = some (amount 98 0);
  target_price = some (amount 105 0);
  notional_usdt = some (amount 100 0);
  hold_time_minutes = some (pos 30);
  reasons = "trend" ∷ [];
}

abbrev pub validation : DecisionValidationResult fixed
validation = record {
  accepted = true;
  decision = some trade;
  validation_errors = [];
  validation_warnings = [];
}

abbrev pub intent : OrderIntent fixed
intent = record {
  symbol = "BTCUSDT";
  side = "BUY";
  quantity = amount 1 0;
  notional_usdt = amount 100 0;
  entry_price = amount 100 0;
  stop_price = amount 98 0;
  target_price = amount 105 0;
  leverage = pos 10;
  mode = dry_run;
  decided_at = "2026-01-01T00:00:00Z";
  order_type = "LIMIT";
  time_in_force = some "GTX";
  limit_wait_seconds = some (pos 45);
  reduce_only = false;
  reason_codes = "trend" ∷ [];
  metadata = Dict.end;
}

abbrev pub live_config : AppConfig
live_config =
    ("BFA_MODE", "live")
    ∷ ("BFA_KILL_SWITCH_FILE", "/var/lib/bfa/stop")
    ∷ ("BINANCE_API_KEY", "key")
    ∷ ("BINANCE_API_SECRET", "secret")
    ∷ ("BFA_MULTI_POSITION_ENABLED", "true")
    ∷ ("BFA_MAX_PORTFOLIO_MARGIN_USDT", "500")
    ∷ ("BFA_ACCOUNT_CAPITAL_USDT", "1000")
    ∷ ("BFA_MAX_PORTFOLIO_MARGIN_FRACTION", "1")
    ∷ ("BFA_MAX_PORTFOLIO_NOTIONAL_USDT", "1000")
    ∷ ("BFA_MAX_SAME_DIRECTION_NOTIONAL_USDT", "1000")
    ∷ []
