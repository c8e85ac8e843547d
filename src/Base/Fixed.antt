-- ===== src/Base/Fixed.antt =====
-- A value of the float interface: decimal numbers with eight places, and NaN. The theorems are
-- applied to it at concrete data.
use Prim.Native.Nat.{ℕ, zero, suc, ◌*◌, ◌/◌, ◌^◌}
use Prim.Native.String.{String}
use mathlib.Core.Bool.{Bool, false}
use mathlib.Core.Option.{Option, none, some}
use binance_future_agent.Base.Int.{ℤ, pos, negsuc, ◌+ℤ◌, ◌-ℤ◌, ◌*ℤ◌, quot_ℕ, ltb_ℤ, leb_ℤ, eqb_ℤ}
use binance_future_agent.Base.Text.{parse_int}
use binance_future_agent.Base.Float.{Float}

abbrev pub Number : Type 0
Number = Option ℤ

abbrev pub scale : ℕ
scale = 100000000

lift₂ : (ℤ → ℤ → ℤ) → Number → Number → Number
lift₂ f (some a) (some b) = some (f a b)
lift₂ f _ _ = none

abbrev pub test₂ : (ℤ → ℤ → Bool) → Number → Number → Bool
test₂ f (some a) (some b) = f a b
test₂ f (some a) none = false
test₂ f none _ = false

-- Division towards zero; a division by zero gives NaN here, and the source guards against it.
divide : ℤ → ℤ → Number
divide a (pos zero) = none
divide a (pos (suc n)) = some (quot_ℕ (a *ℤ pos scale) (suc n))
divide a (negsuc n) = some (quot_ℕ (pos 0 -ℤ a *ℤ pos scale) (suc n))

divide₂ : Number → Number → Number
divide₂ (some a) (some b) = divide a b
divide₂ _ _ = none

unfoldable pub fixed_add : Number → Number → Number
unfolding lift₂ ◌+ℤ◌
fixed_add = lift₂ ◌+ℤ◌

unfoldable pub fixed_sub : Number → Number → Number
unfolding lift₂ ◌-ℤ◌
fixed_sub = lift₂ ◌-ℤ◌

unfoldable pub fixed_mul : Number → Number → Number
unfolding lift₂ ◌*ℤ◌ quot_ℕ
fixed_mul = lift₂ (λ a b. quot_ℕ (a *ℤ b) scale)

unfoldable pub fixed_div : Number → Number → Number
unfolding divide₂ divide ◌*ℤ◌ ◌-ℤ◌ quot_ℕ
fixed_div = divide₂

unfoldable pub fixed_of_int : ℤ → Number
unfolding ◌*ℤ◌
fixed_of_int n = some (n *ℤ pos scale)

unfoldable pub fixed_parse : String → Option Number
unfolding parse_int fixed_of_int
fixed_parse s = elim (parse_int s) [ none ↦ none | some n ↦ some (fixed_of_int n) ]

unfoldable pub fixed_trunc : Number → Option ℤ
unfolding quot_ℕ
fixed_trunc none = none
fixed_trunc (some a) = some (quot_ℕ a scale)

abbrev pub fixed : Float
fixed = record {
  F = Number;
  add = fixed_add;
  sub = fixed_sub;
  mul = fixed_mul;
  div = fixed_div;
  lt = test₂ ltb_ℤ;
  le = test₂ leb_ℤ;
  eq = test₂ eqb_ℤ;
  of_int = fixed_of_int;
  lit = λ n d. some (pos (n * scale / 10 ^ d));
  parse = fixed_parse;
  trunc = fixed_trunc;
  -- Every number has eight places, the only number of places that the source rounds to.
  round = λ places x. x;
  show = λ x. "";
  show_places = λ n x. "";
}

-- A run opens all the operations with this one name.
unfoldable pub fixed_ops : Unit {0}
unfolding fixed_add fixed_sub fixed_mul fixed_div fixed_of_int fixed_parse fixed_trunc
fixed_ops = tt

-- The amount `n / 10 ** d`.
abbrev pub amount : ℕ → ℕ → Number
amount n d = some (pos (n * scale / 10 ^ d))
