-- ===== src/Base/Ordered.antt =====
-- The numbers of Base/Fixed.antt are ordered as IEEE doubles are, with one NaN.
use mathlib.Core.Path.{refl}
use native.Mathlib.Omega.{arith}
use binance_future_agent.Base.Float.{IsOrdered}
use binance_future_agent.Base.Fixed.{fixed}

pub fixed-IsOrdered : IsOrdered fixed
fixed-IsOrdered = record {
  zero_is_number = refl;
  lt_irrefl = λ a. ground arith;
  lt_trans = λ a b c h k. ground arith;
  lt-le = λ a b h. ground arith;
  le_trans = λ a b c h k. ground arith;
  lt_of_lt_of_le = λ a b c h k. ground arith;
  lt_of_le_of_lt = λ a b c h k. ground arith;
  lt-is_number = λ a b h. ground arith;
  lt_of_not_le = λ a b na nb h. ground arith;
  le_of_not_lt = λ a b na nb h. ground arith;
}
