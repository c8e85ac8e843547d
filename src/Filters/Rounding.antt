-- ===== src/Filters/Rounding.antt =====
-- Rounding to an increment: where the result lies, and that it is a fixed point.
use native.Mathlib.Nat.{div-add-mod, mul-div_cancel, zero-mul, zero-div}
use binance_future_agent.Base.{
  ℕ, zero, suc, ◌+◌, ◌*◌, ◌/◌, ◌≤◌, ◌<◌, ◌≡◌, refl, Option, none, some, arith,
}
use binance_future_agent.Base.Int.{ℤ, pos, negsuc, neg_ℕ, quot_ℕ}
use binance_future_agent.Decimal.{round_towards_zero, scale_ℤ}
use binance_future_agent.Filters.Defs.{round_down}

-- A value that is not negative goes down to the last whole multiple of the increment: a number of
-- steps that does not pass the value, while one step more would.
pub round_down_grid :
    (v i : ℕ)
    → (k : ℕ) × (round_down (pos v) (some (pos (suc i))) ≡ pos (k * suc i))
      × (k * suc i ≤ v)
      × (v < k * suc i + suc i)
unfolding round_down round_towards_zero quot_ℕ
round_down_grid v i = (v / suc i, ground arith, grind arith, grind (arith, div-add-mod))

scale-neg : (k d : ℕ) → scale_ℤ (neg_ℕ k) d ≡ neg_ℕ (k * d)
scale-neg zero d = rw zero-mul
scale-neg (suc k) d = refl

quot-neg : (m i : ℕ) → quot_ℕ (neg_ℕ m) (suc i) ≡ neg_ℕ (m / suc i)
unfolding quot_ℕ
quot-neg zero i = rw (zero-div (suc i))
quot-neg (suc m) i = refl

-- What rounding leaves of a negative value.
round_towards_zero-neg :
    (m i : ℕ) → round_towards_zero (neg_ℕ m) (suc i) ≡ neg_ℕ (m / suc i * suc i)
unfolding round_towards_zero
round_towards_zero-neg m i = rw (quot-neg m i, scale-neg (m / suc i) (suc i))

div_of_multiple : (k i : ℕ) → k * suc i / suc i ≡ k
div_of_multiple k i = mul-div_cancel k (omega arith)

round_towards_zero_idem :
    (v : ℤ) (i : ℕ)
    → round_towards_zero (round_towards_zero v (suc i)) (suc i) ≡ round_towards_zero v (suc i)
round_towards_zero_idem (pos n) i =
    unfold round_towards_zero quot_ℕ in rw (div_of_multiple (n / suc i) i)
round_towards_zero_idem (negsuc n) i = rw (
  round_towards_zero-neg (suc n) i,
  round_towards_zero-neg (suc n / suc i * suc i) i,
  div_of_multiple (suc n / suc i) i,
)

-- Rounding an already rounded value changes nothing, for any sign and any increment or none.
pub round_down_idem :
    (v : ℤ) (increment : Option ℤ)
    → round_down (round_down v increment) increment ≡ round_down v increment
unfolding round_down
round_down_idem v none = refl
round_down_idem v (some (pos zero)) = refl
round_down_idem v (some (pos (suc i))) = ground (arith, round_towards_zero_idem v i)
round_down_idem v (some (negsuc n)) = ground arith
