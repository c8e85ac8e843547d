-- ===== src/Risk/Exposure.antt =====
-- src/bfa/execution/risk.py: how an intent stands to the exposures that are open.
use mathlib.Core.List.{foldl}
use binance_future_agent.Base.{
  String, Bool, false, not, ◌&&◌, ◌||◌, Option, none, some, ◌==◌, if◌then◌else◌, any,
}
use binance_future_agent.Base.Int.{ℤ, pos, ◌+ℤ◌, max_ℤ}
use binance_future_agent.Base.Float
use binance_future_agent.Base.Float.{Float}
use binance_future_agent.Base.Text.{upper, lower, strip, is_blank, without_suffix}
use binance_future_agent.Base.Json.{Dict, get, text_at, text_or_blank}
use binance_future_agent.Config.{AppConfig, int_config, float_config}
use binance_future_agent.Models.{
  RiskLimits, OrderIntent, RiskState, float_or_zero, active_notional, active_initial_margin,
  estimated_initial_margin,
}

-- `_stable_quote_equivalence_key`
unfoldable pub quote_key : String → Option String
quote_key symbol = elim (without_suffix "USDT" (upper symbol)) [
  | some stem ↦ some stem
  | none ↦ without_suffix "USDC" (upper symbol)
]

-- `symbol_key and intent_key and symbol_key == intent_key`
abbrev same_key : Option String → Option String → Bool
same_key (some a) (some b) = not (is_blank a) && (not (is_blank b) && a == b)
same_key _ _ = false

-- `_same_quote_equivalent_symbol`
unfoldable pub same_quote_symbol : String → String → Bool
same_quote_symbol symbol intent_symbol =
    upper symbol == upper intent_symbol
    || same_key (quote_key (upper symbol)) (quote_key intent_symbol)

-- `"LONG" if side.upper() == "BUY" else "SHORT"`
unfoldable pub direction_of : String → String
direction_of side = if upper side == "BUY" then "LONG" else "SHORT"

unfoldable pub opposite_of : String → String
opposite_of side = if direction_of side == "LONG" then "SHORT" else "LONG"

module _ (fl : Float) where
  open fl use {F, add, lit}

  -- An exposure in a direction, on a symbol that is the same up to its stable quote asset.
  unfoldable pub exposes : String → String → Dict fl → Bool
  exposes direction symbol exposure =
      upper (text_at exposure "direction") == direction
      && same_quote_symbol (upper (text_at exposure "symbol")) symbol

  -- `_duplicate_exposure` and `_same_symbol_opposite_exposure`
  unfoldable pub duplicate_exposure : OrderIntent fl → RiskState fl → Bool
  duplicate_exposure intent state =
      any (exposes (direction_of intent.side) intent.symbol) state.active_exposures

  unfoldable pub opposite_exposure : OrderIntent fl → RiskState fl → Bool
  opposite_exposure intent state =
      any (exposes (opposite_of intent.side) intent.symbol) state.active_exposures

  -- `_is_micro_grid_intent`
  unfoldable pub is_micro_grid_intent : OrderIntent fl → Bool
  is_micro_grid_intent intent =
      lower (strip (text_or_blank (get intent.metadata "strategy_leg"))) == "micro_grid"
      || (upper (strip (text_or_blank (get intent.metadata "regime_label"))) == "RANGE"
          || any (λ reason. lower (strip reason) == "strategy_leg:micro_grid") intent.reason_codes)

  -- `_effective_max_open_positions`
  unfoldable pub effective_max_open_positions : OrderIntent fl → RiskLimits fl → AppConfig → ℤ
  effective_max_open_positions intent limits config =
      if is_micro_grid_intent intent
      then limits.max_open_positions
        +ℤ max_ℤ (int_config config "BFA_MICRO_GRID_EXTRA_OPEN_POSITIONS") (pos 0)
      else limits.max_open_positions

  -- `_effective_same_direction_notional_cap`
  unfoldable pub effective_same_direction_cap : OrderIntent fl → AppConfig → F
  effective_same_direction_cap intent config =
      let cap = float_config fl config "BFA_MAX_SAME_DIRECTION_NOTIONAL_USDT" in
      if is_micro_grid_intent intent
      then add cap (
          Float.max fl (float_config fl config "BFA_MICRO_GRID_EXTRA_SAME_DIRECTION_NOTIONAL_USDT")
            (lit 0 0))
      else cap

  -- `_portfolio_margin_after_entry` and `_portfolio_notional_after_entry`
  unfoldable pub margin_after_entry : OrderIntent fl → RiskState fl → F
  margin_after_entry intent state =
      add (active_initial_margin fl state) (estimated_initial_margin fl intent)

  unfoldable pub notional_after_entry : OrderIntent fl → RiskState fl → F
  notional_after_entry intent state = add (active_notional fl state) intent.notional_usdt

  -- `_same_direction_notional_after_entry`
  unfoldable pub same_direction_notional_after_entry : OrderIntent fl → RiskState fl → F
  same_direction_notional_after_entry intent state =
      foldl
        (λ total exposure.
          if upper (text_at exposure "direction") == direction_of intent.side
          then add total (float_or_zero fl exposure "notional_usdt")
          else total)
        intent.notional_usdt state.active_exposures
