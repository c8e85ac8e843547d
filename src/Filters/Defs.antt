-- ===== src/Filters/Defs.antt =====
-- src/bfa/execution/filters.py: `SymbolExecutionFilters.apply` and `_round_down`. A decimal is its
-- mantissa at `places` places; a product of two stands at twice as many.
use binance_future_agent.Base.{
  ℕ, ◌^◌, ◌+◌, String, Bool, false, Option, none, some, List, ◌++◌, if◌then◌else◌, when, dedupe,
}
use binance_future_agent.Base.Int.{ℤ, pos, ◌*ℤ◌, ltb_ℤ, leb_ℤ, min_ℤ, pos_part}
use binance_future_agent.Base.Float.{Float}
use binance_future_agent.Decimal.{Decimals, scale_ℤ, round_towards_zero}

-- `SymbolExecutionFilters`
pub record SymbolExecutionFilters : Type 0 where
  pub symbol : String
  pub tick_size : Option ℤ
  pub step_size : Option ℤ
  pub min_qty : Option ℤ
  pub max_qty : Option ℤ
  pub min_notional : Option ℤ

-- `_round_down`
unfoldable pub round_down : ℤ → Option ℤ → ℤ
round_down value none = value
round_down value (some increment) =
    if leb_ℤ increment (pos 0) then value else round_towards_zero value (pos_part increment)

-- `limit is not None and ...`, on the comparison that follows.
abbrev pub breaks : Option ℤ → (ℤ → Bool) → Bool
breaks none test = false
breaks (some limit) test = test limit

-- The rounded values of an order; `notional` stands at twice the places.
pub record Rounded : Type 0 where
  pub quantity : ℤ
  pub entry : ℤ
  pub stop : ℤ
  pub target : ℤ
  pub notional : ℤ

unfoldable pub round_order : SymbolExecutionFilters → ℤ → ℤ → ℤ → ℤ → Rounded
round_order f quantity entry stop target =
    let q = round_down quantity f.step_size in
    let e = round_down entry f.tick_size in
    record {
      quantity = q;
      entry = e;
      stop = round_down stop f.tick_size;
      target = round_down target f.tick_size;
      notional = q *ℤ e;
    }

-- The `reasons` list of `apply`, as it stands before `_dedupe`.
unfoldable pub filter_reasons : ℕ → SymbolExecutionFilters → Rounded → List String
filter_reasons places f r =
    when (breaks f.min_qty (λ least. ltb_ℤ r.quantity least)) "quantity_below_min"
    ++ (when (breaks f.max_qty (λ most. ltb_ℤ most r.quantity)) "quantity_above_max"
        ++ (when (breaks f.min_notional (λ least. ltb_ℤ r.notional (scale_ℤ least (10 ^ places))))
              "notional_below_min"
            ++ (when (leb_ℤ r.quantity (pos 0)) "quantity_not_positive"
                ++ when (leb_ℤ (min_ℤ (min_ℤ r.entry r.stop) r.target) (pos 0))
                    "price_not_positive")))

module _ (fl : Float) where
  -- `FilteredOrderValues`
  pub record FilteredOrderValues : Type 0 where
    pub quantity : fl.F
    pub entry_price : fl.F
    pub stop_price : fl.F
    pub target_price : fl.F
    pub notional_usdt : fl.F
    pub rejection_reasons : List String

module _ (fl : Float) (dec : Decimals fl) where
  -- `SymbolExecutionFilters.apply`
  unfoldable pub apply : SymbolExecutionFilters → fl.F → fl.F → fl.F → fl.F → FilteredOrderValues fl
  apply f quantity entry_price stop_price target_price =
      let r =
        round_order f (dec.of_float quantity) (dec.of_float entry_price) (dec.of_float stop_price)
          (dec.of_float target_price) in
      record {
        quantity = dec.to_float dec.places r.quantity;
        entry_price = dec.to_float dec.places r.entry;
        stop_price = dec.to_float dec.places r.stop;
        target_price = dec.to_float dec.places r.target;
        notional_usdt = dec.to_float (dec.places + dec.places) r.notional;
        rejection_reasons = dedupe (filter_reasons dec.places f r);
      }
