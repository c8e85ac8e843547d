-- ===== src/Decimal.antt =====
-- Python's `Decimal` as src/bfa/execution/filters.py and src/bfa/execution/executor.py use it: exact
-- decimal numbers, kept as whole multiples of 10 ** -places. The quotients of the source have few
-- digits, so the 28 digits of the context never round; that is the assumption of this module.
use Prim.Native.Nat.{ℕ, suc, ◌*◌, ◌+◌, ◌-◌, ◌/◌}
use binance_future_agent.Base.Int.{ℤ, pos, negsuc, neg_ℕ, quot_ℕ}
use binance_future_agent.Base.Float.{Float}

-- `Decimal(str(x))`, the mantissa of a float at `places` decimal places, and `float(d)` of a
-- mantissa at some number of places.
pub record Decimals (fl : Float) : Type 0 where
  pub places : ℕ
  pub of_float : fl.F → ℤ
  pub to_float : ℕ → ℤ → fl.F

-- `x * y` of a mantissa by a natural number.
abbrev pub scale_ℤ : ℤ → ℕ → ℤ
scale_ℤ (pos n) d = pos (n * d)
scale_ℤ (negsuc n) d = neg_ℕ (suc n * d)

-- `(value / increment).to_integral_value(rounding=ROUND_DOWN) * increment`: towards zero.
unfoldable pub round_towards_zero : ℤ → ℕ → ℤ
round_towards_zero v inc = scale_ℤ (quot_ℕ v inc) inc

-- The least number of increments that reaches a number.
abbrev pub units_up : ℕ → ℕ → ℕ
units_up n inc = (n + (inc - 1)) / inc

-- `(value / increment).to_integral_value(rounding=ROUND_UP) * increment`: away from zero.
unfoldable pub round_from_zero : ℤ → ℕ → ℤ
round_from_zero (pos n) inc = pos (units_up n inc * inc)
round_from_zero (negsuc n) inc = neg_ℕ (units_up (suc n) inc * inc)
