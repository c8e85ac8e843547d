-- ===== src/Base/Float.antt =====
-- Python's `float` as an interface. The model computes with no floats of its own: a definition
-- takes them as a parameter, with the operations that the source uses. The laws that a theorem
-- needs are named apart from the operations, and hold for IEEE doubles, NaN included.
use Prim.Native.Nat.{ℕ}
use Prim.Native.String.{String}
use mathlib.Core.Path.{◌≡◌}
use mathlib.Core.Bool.{Bool, true, false}
use mathlib.Core.Option.{Option, none, some}
use binance_future_agent.Base.Tests.{if◌then◌else◌}
use binance_future_agent.Base.Int.{ℤ}

pub record Float : Type 1 where
  pub F : Type 0
  pub add : F → F → F
  pub sub : F → F → F
  pub mul : F → F → F
  pub div : F → F → F
  -- `a < b`, `a <= b` and `a == b`: all false if a side is NaN.
  pub lt : F → F → Bool
  pub le : F → F → Bool
  pub eq : F → F → Bool
  -- `float(n)` of an integer, and the literal `n / 10 ** d`.
  pub of_int : ℤ → F
  pub lit : ℕ → ℕ → F
  -- `float(s)` of a text; nothing for a `ValueError`.
  pub parse : String → Option F
  -- `int(x)`; nothing for NaN and the infinities.
  pub trunc : F → Option ℤ
  -- `round(x, places)`
  pub round : ℕ → F → F
  -- `str(x)`
  pub show : F → String
  -- `f"{x:.8f}"` and the like, at some number of places.
  pub show_places : ℕ → F → String

-- The order of IEEE doubles. A value that is no NaN equals itself.
pub record IsOrdered (fl : Float) : Type 0 where
  pub zero_is_number : fl.eq (fl.lit 0 0) (fl.lit 0 0) ≡ true
  pub lt_irrefl : (a : fl.F) → fl.lt a a ≡ false
  pub lt_trans : (a b c : fl.F) → fl.lt a b ≡ true → fl.lt b c ≡ true → fl.lt a c ≡ true
  pub lt-le : (a b : fl.F) → fl.lt a b ≡ true → fl.le a b ≡ true
  pub le_trans : (a b c : fl.F) → fl.le a b ≡ true → fl.le b c ≡ true → fl.le a c ≡ true
  pub lt_of_lt_of_le : (a b c : fl.F) → fl.lt a b ≡ true → fl.le b c ≡ true → fl.lt a c ≡ true
  pub lt_of_le_of_lt : (a b c : fl.F) → fl.le a b ≡ true → fl.lt b c ≡ true → fl.lt a c ≡ true
  pub lt-is_number : (a b : fl.F) → fl.lt a b ≡ true → (fl.eq a a ≡ true) × (fl.eq b b ≡ true)
  pub lt_of_not_le :
      (a b : fl.F) → fl.eq a a ≡ true → fl.eq b b ≡ true → fl.le a b ≡ false → fl.lt b a ≡ true
  pub le_of_not_lt :
      (a b : fl.F) → fl.eq a a ≡ true → fl.eq b b ≡ true → fl.lt a b ≡ false → fl.le b a ≡ true

module _ (fl : Float) where
  open fl use {F, sub, lt, lit}

  abbrev pub zero : F
  zero = lit 0 0

  -- `max(a, b)` and `min(a, b)`, which keep the first of two that compare as neither.
  abbrev pub max : F → F → F
  max a b = if lt a b then b else a

  abbrev pub min : F → F → F
  min a b = if lt b a then b else a

  -- `abs(x)`
  abbrev pub abs : F → F
  abs a = if lt a zero then sub zero a else a

  -- `x or y` on floats that may be missing.
  abbrev pub or_else : Option F → F → F
  or_else none d = d
  or_else (some a) d = if fl.eq a zero then d else a
