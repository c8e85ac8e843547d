-- ===== src/Filters/Gates.antt =====
-- What it means that the filters reject nothing.
use binance_future_agent.Base.{
  ℕ, zero, suc, ◌^◌, ◌*◌, ◌≡◌, ◌↔◌, true, Option, none, some, arith, is_empty, is_empty-dedupe,
  refl, ◌≤◌,
}
use native.Mathlib.Nat.{mul-le-mul}
use binance_future_agent.Base.Int.{ℤ, pos, negsuc, ◌≤ℤ◌, pos-mul}
use binance_future_agent.Base.Float.{Float}
use binance_future_agent.Decimal.{Decimals, scale_ℤ}
use binance_future_agent.Filters.Defs.{
  SymbolExecutionFilters, Rounded, round_down, round_order, filter_reasons, apply,
}
use binance_future_agent.Filters.Rounding.{round_down_grid}

-- A limit that may be missing.
abbrev pub Limit : Option ℤ → (ℤ → Type 0) → Type 0
Limit none P = Unit
Limit (some limit) P = P limit

-- The exchange's rules on an order whose values are rounded.
pub record MeetsFilters (places : ℕ) (f : SymbolExecutionFilters) (r : Rounded) : Type 0 where
  pub min_qty : Limit f.min_qty (λ least. least ≤ℤ r.quantity)
  pub max_qty : Limit f.max_qty (λ most. r.quantity ≤ℤ most)
  pub min_notional : Limit f.min_notional (λ least. scale_ℤ least (10 ^ places) ≤ℤ r.notional)
  pub quantity : pos 1 ≤ℤ r.quantity
  pub entry : pos 1 ≤ℤ r.entry
  pub stop : pos 1 ≤ℤ r.stop
  pub target : pos 1 ≤ℤ r.target

module _ (places : ℕ) (f : SymbolExecutionFilters) (r : Rounded) where
  reasons-MeetsFilters : is_empty (filter_reasons places f r) ≡ true → MeetsFilters places f r
  unfolding filter_reasons
  reasons-MeetsFilters h = ground arith

  MeetsFilters-reasons : MeetsFilters places f r → is_empty (filter_reasons places f r) ≡ true
  unfolding filter_reasons
  MeetsFilters-reasons m = ground arith

-- `apply` rejects nothing exactly when the rounded order meets every rule of the exchange: each
-- limit that is set, a quantity above zero, and three prices above zero.
pub apply_accepts_iff :
    (fl : Float) (dec : Decimals fl) (f : SymbolExecutionFilters)
    (quantity entry_price stop_price target_price : fl.F)
    → (is_empty (apply fl dec f quantity entry_price stop_price target_price).rejection_reasons
        ≡ true)
      ↔ MeetsFilters dec.places f (
          round_order f
            (dec.of_float quantity)
            (dec.of_float entry_price)
            (dec.of_float stop_price)
            (dec.of_float target_price))
unfolding apply
apply_accepts_iff fl dec f quantity entry_price stop_price target_price =
    rw is_empty-dedupe (reasons-MeetsFilters dec.places f _, MeetsFilters-reasons dec.places f _)

round_down-le :
    (v : ℕ) (increment : Option ℤ) → (k : ℕ) × (round_down (pos v) increment ≡ pos k) × (k ≤ v)
unfolding round_down
round_down-le v none = (v, refl, omega arith)
round_down-le v (some (pos zero)) = (v, refl, omega arith)
round_down-le v (some (pos (suc i))) =
    let (k, e, below, _) = round_down_grid v i in (k * suc i, e, below)
round_down-le v (some (negsuc n)) = (v, ground arith, omega arith)

-- Rounding never makes an order larger: the quantity, the entry price and the notional of a rounded
-- order stay at or below those that were asked for, where these are not negative.
pub round_order-le :
    (f : SymbolExecutionFilters) (quantity entry : ℕ) (stop target : ℤ)
    → let r = round_order f (pos quantity) (pos entry) stop target in
      (r.quantity ≤ℤ pos quantity) × (r.entry ≤ℤ pos entry) × (r.notional ≤ℤ pos (quantity * entry))
unfolding round_order
round_order-le f quantity entry stop target =
    let (q, eq, lq) = round_down-le quantity f.step_size in
    let (e, ee, le) = round_down-le entry f.tick_size in
    rw (eq, ee) (omega arith, omega arith, rw (pos-mul q e) (omega (arith, mul-le-mul lq le)))
