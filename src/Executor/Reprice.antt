-- ===== src/Executor/Reprice.antt =====
-- src/bfa/execution/executor.py: the prices of a post-only entry that is tried again, and the stop
-- and target that follow an entry price. The latency telemetry of the engine is left out of the
-- model, here and in the modules that follow.
use Prim.Native.Nat.{max}
use binance_future_agent.Base.{
  ℕ, ◌+◌, ◌*◌, String, Bool, true, false, ◌&&◌, ◌||◌, Option, none, some, [], ◌∷◌, ◌++◌, ◌==◌,
  if◌then◌else◌, or_default, is_some,
}
use binance_future_agent.Base.Int.{ℤ, pos, ◌+ℤ◌, ◌-ℤ◌, ◌*ℤ◌, leb_ℤ, max_ℤ, min_ℤ, pos_part}
use binance_future_agent.Base.Float
use binance_future_agent.Base.Float.{Float}
use binance_future_agent.Base.Text.{upper}
use binance_future_agent.Base.Json.{Json, Dict, put, is_yes}
use binance_future_agent.Config.{AppConfig, setting}
use binance_future_agent.Models.{OrderIntent}
use binance_future_agent.Decimal.{Decimals, scale_ℤ, round_towards_zero, round_from_zero}
use binance_future_agent.Filters.{SymbolExecutionFilters}
use binance_future_agent.Executor.Orders.{is_limit_order, order_time_in_force, is_micro_grid_order}

-- `_round_decimal`
unfoldable pub round_decimal : ℤ → ℤ → Bool → ℤ
round_decimal value increment up =
    if leb_ℤ increment (pos 0)
    then value
    else if up
    then round_from_zero value (pos_part increment)
    else round_towards_zero value (pos_part increment)

-- `filters is None or filters.tick_size is None`, and the tick size otherwise.
unfoldable pub tick_of : Option SymbolExecutionFilters → Option ℤ
tick_of none = none
tick_of (some f) = f.tick_size

-- The entry price of a later attempt, as a mantissa: away from the market by whole ticks.
unfoldable pub repriced : Bool → ℤ → ℤ → ℕ → ℤ
repriced buy price tick ticks =
    let offset = scale_ℤ tick ticks in
    if buy
    then round_decimal (price -ℤ offset) tick false
    else round_decimal (price +ℤ offset) tick true

module _ (fl : Float) where
  open fl use {F, add, sub, mul, div, lt, le, lit}

  -- `max(low, min(int(float(text)), high))`, where a default stands for what cannot be read.
  abbrev clamped : String → ℤ → ℤ → ℤ
  clamped value default high = max_ℤ (pos 1) (
      min_ℤ (elim (fl.parse value) [ none ↦ default | some x ↦ or_default (fl.trunc x) default ])
        high)

  -- `_post_only_reprice_enabled`
  unfoldable pub reprice_enabled : AppConfig → OrderIntent fl → Bool
  reprice_enabled config intent =
      is_limit_order fl intent
      && (or_default (order_time_in_force fl intent) "" == "GTX"
          && is_yes (setting config "BFA_POST_ONLY_REPRICE_ENABLED" "true"))

  -- `_post_only_reprice_ticks`
  unfoldable pub reprice_ticks : AppConfig → ℕ
  reprice_ticks config =
      pos_part (clamped (setting config "BFA_POST_ONLY_REPRICE_TICKS" "2") (pos 2) (pos 20))

  -- `_post_only_reprice_max_attempts`
  unfoldable pub reprice_max_attempts :
      AppConfig → OrderIntent fl → Option SymbolExecutionFilters → ℕ
  reprice_max_attempts config intent filters =
      if reprice_enabled config intent && is_some (tick_of filters)
      then pos_part
          (clamped (setting config "BFA_POST_ONLY_REPRICE_MAX_ATTEMPTS" "3") (pos 3) (pos 6))
      else 1

  -- The prices of `_micro_grid_fill_reanchored_protective_prices`, and the record it makes.
  pub record Reanchored : Type 0 where
    pub stop_price : F
    pub target_price : F
    pub report : Option (Dict fl)

  reanchor_report : String → String → F → F → OrderIntent fl → F → F → F → F → Dict fl
  reanchor_report model quality entry fill intent stop target risk reward =
      Dict.field "model" (Json.str model) (
        Dict.field "fill_quality" (Json.str quality) (
          Dict.field "original_entry_price" (Json.num entry) (
            Dict.field "fill_price" (Json.num fill) (
              Dict.field "original_stop_price" (Json.num intent.stop_price) (
                Dict.field "original_target_price" (Json.num intent.target_price) (
                  Dict.field "reanchored_stop_price" (Json.num stop) (
                    Dict.field "reanchored_target_price" (Json.num target) (
                      Dict.field "risk_fraction" (Json.num risk)
                        (Dict.field "reward_fraction" (Json.num reward) Dict.end)))))))))

  -- The stop and the target once the two fractions are positive.
  unfoldable pub reanchored_prices : OrderIntent fl → F → F → F → F × F
  reanchored_prices intent fill risk reward =
      if upper intent.side == "BUY"
      then (
        Float.min fl intent.stop_price (mul fill (sub (lit 1 0) risk)),
        (if le fill intent.entry_price
            then intent.target_price
            else Float.max fl intent.target_price (mul fill (add (lit 1 0) reward))),
      )
      else (
        Float.max fl intent.stop_price (mul fill (add (lit 1 0) risk)),
        (if le intent.entry_price fill
            then intent.target_price
            else Float.min fl intent.target_price (mul fill (sub (lit 1 0) reward))),
      )

  abbrev fill_quality : OrderIntent fl → F → String
  fill_quality intent fill =
      if (if upper intent.side == "BUY"
        then le fill intent.entry_price
        else le intent.entry_price fill)
      then "better_or_equal"
      else "worse"

  -- `_micro_grid_fill_reanchored_protective_prices`
  unfoldable pub reanchor : OrderIntent fl → F → Reanchored
  unfolding reanchor_report
  reanchor intent fill =
      let entry = intent.entry_price in
      let risk = div (Float.abs fl (sub entry intent.stop_price)) entry in
      let reward = div (Float.abs fl (sub intent.target_price entry)) entry in
      let kept : Reanchored = record {
        stop_price = intent.stop_price;
        target_price = intent.target_price;
        report = none;
      } in
      let (stop, target) = reanchored_prices intent fill risk reward in
      let moved : Reanchored = record {
        stop_price = stop;
        target_price = target;
        report = some (
            reanchor_report "micro_grid_fill_reanchor_v1" (fill_quality intent fill) entry fill
              intent stop target risk reward);
      } in
      if le entry (lit 0 0) || le fill (lit 0 0)
      then kept
      else if le risk (lit 0 0) || le reward (lit 0 0)
      then kept
      else moved

  -- An intent at another entry price, with the stop and the target that follow where it is a micro
  -- grid order; the note and the key of the record name the occasion.
  unfoldable pub at_entry_price :
      OrderIntent fl → F → F → F → String → String → (Dict fl → Dict fl) → OrderIntent fl
  at_entry_price intent price quantity notional note key mark =
      let moved = reanchor intent price in
      let plain : OrderIntent fl = record intent {
        entry_price = price;
        quantity = quantity;
        notional_usdt = notional;
      } in
      let prices : OrderIntent fl = record plain {
        stop_price = moved.stop_price;
        target_price = moved.target_price;
      } in
      if is_micro_grid_order fl intent
      then elim moved.report [
        | none ↦ prices
        | some report ↦ record prices {
          reason_codes = intent.reason_codes ++ (note ∷ []);
          metadata = put intent.metadata key (Json.obj (mark report));
        }
      ]
      else plain

module _ (fl : Float) (dec : Decimals fl) where
  -- The intent at the price of a later attempt, unless that price is not positive.
  unfoldable pub at_repriced : OrderIntent fl → ℤ → OrderIntent fl
  at_repriced intent adjusted =
      let moved =
        at_entry_price fl intent (dec.to_float dec.places adjusted) intent.quantity
          (dec.to_float (dec.places + dec.places) (dec.of_float intent.quantity *ℤ adjusted))
          "micro_grid_reprice_reanchored_protective_prices" "micro_grid_reprice_reanchor"
          (λ report. put report "model" (Json.str "micro_grid_reprice_reanchor_v1")) in
      if leb_ℤ adjusted (pos 0) then intent else moved

  -- `_repriced_post_only_intent`, at an attempt's index from one.
  unfoldable pub repriced_post_only_intent :
      OrderIntent fl → Option SymbolExecutionFilters → ℕ → ℕ → OrderIntent fl
  repriced_post_only_intent intent filters index ticks = elim (tick_of filters) [
    | none ↦ intent
    | some tick ↦ at_repriced intent (
        repriced (upper intent.side == "BUY") (dec.of_float intent.entry_price) tick
          (max index 1 * max ticks 1))
  ]
