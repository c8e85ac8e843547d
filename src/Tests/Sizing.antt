-- ===== src/Tests/Sizing.antt =====
-- The caps and the governor, on numbers of eight places.
use binance_future_agent.Base.{true, false, none, some, ◌∷◌, ◌≡◌, refl}
use binance_future_agent.Base.Int.{pos}
use binance_future_agent.Base.Float
use binance_future_agent.Base.Fixed.{fixed, fixed_ops, amount}
use binance_future_agent.Base.Ordered.{fixed-IsOrdered}
use binance_future_agent.Config.{config_ops, AppConfig}
use binance_future_agent.Sizing.{
  SizingInput, hard_cap_notional, compute_position_sizing, governed_notional, sizing_ops,
}
use binance_future_agent.Sizing.Caps.{
  balance_at_leverage, hard_cap_notional-le, hard_cap_notional-no_balance,
}
use binance_future_agent.Sizing.Governed.{IsCapped, governed_notional-IsCapped}
use binance_future_agent.Models.{RiskState, active_initial_margin, total}
use binance_future_agent.Tests.Data.{state, live_config}

abbrev capped : AppConfig
capped = ("BFA_MAX_POSITION_NOTIONAL_USDT", "200") ∷ live_config

abbrev empty_handed : RiskState fixed
empty_handed = record state { account_available_balance_usdt = some (amount 0 0) }

hard_cap_notional-le_example :
    fixed.le
      (hard_cap_notional fixed capped none (some state) (amount 2 0))
      (fixed.mul (Float.max fixed (fixed.lit 0 0) (amount 500 0)) (amount 2 0))
    ≡ true
unfolding fixed_ops
hard_cap_notional-le_example =
    hard_cap_notional-le fixed fixed-IsOrdered capped none (some state) (amount 2 0)
      (fixed.mul (Float.max fixed (fixed.lit 0 0) (amount 500 0)) (amount 2 0))
      (balance_at_leverage state (amount 500 0) refl refl) refl

hard_cap_notional-no_balance_example :
    hard_cap_notional fixed capped none (some empty_handed) (amount 2 0)
    ≡ hard_cap_notional fixed capped none
        (some (record empty_handed { account_available_balance_usdt = none }))
        (amount 2 0)
unfolding fixed_ops
hard_cap_notional-no_balance_example =
    hard_cap_notional-no_balance fixed capped none empty_handed (amount 2 0) (amount 0 0) refl refl
      refl

-- With no balance left, the cap on a notional is still the configured one.
still_capped :
    hard_cap_notional fixed capped none (some empty_handed) (amount 2 0) ≡ fixed.of_int (pos 200)
unfolding fixed_ops config_ops sizing_ops active_initial_margin total
still_capped = refl

governed_notional-IsCapped_example :
    IsCapped fixed fixed-IsOrdered (amount 100 0) (some (amount 5 0)) (
      governed_notional fixed
        (amount 100 0)
        (amount 300 0)
        (amount 11 1)
        (amount 1 0)
        false
        (some (amount 5 0)))
unfolding fixed_ops sizing_ops
governed_notional-IsCapped_example =
    governed_notional-IsCapped fixed fixed-IsOrdered (amount 100 0) (amount 300 0) (amount 11 1)
      (amount 1 0) false (some (amount 5 0)) (λ a b h. h) refl refl

-- A run with a signal below one, which is neither expanded nor downsized, over its hard cap of 100.
above_cap :
    governed_notional fixed (amount 100 0) (amount 300 0) (amount 11 1) (amount 99 2) false none
    ≡ some (fixed.of_int (pos 110))
unfolding fixed_ops sizing_ops
above_cap = refl

abbrev asked : SizingInput fixed
asked = record {
  account_capital_usdt = amount 1000 0;
  max_leverage = amount 2 0;
  fixed_max_notional_usdt = amount 50 0;
  max_risk_per_trade_usdt = amount 10 0;
  max_margin_per_position_usdt = amount 100 0;
  max_margin_fraction = amount 5 1;
  max_effective_notional_usdt = amount 500 0;
  available_balance_usdt = some (amount 80 0);
  entry_price = some (amount 100 0);
  stop_price = some (amount 90 0);
  min_executable_notional_usdt = none;
}

-- Half of a balance of 80, at a leverage of 2.
sized : (compute_position_sizing fixed asked true).max_position_notional_usdt ≡ amount 80 0
unfolding fixed_ops sizing_ops
sized = refl
