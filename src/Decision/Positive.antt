-- ===== src/Decision/Positive.antt =====
-- The prices of an accepted trade are above zero, in a float order with NaN.
use binance_future_agent.Base.{String, true, false, ◌≡◌, inl, inr, arith, Bool-cases}
use binance_future_agent.Base.Float
use binance_future_agent.Base.Float.{Float, IsOrdered}
use binance_future_agent.Base.Int.{ℤ}
use binance_future_agent.Base.Json.{Dict}
use binance_future_agent.Decision.Parse.{AiDecisionContext}
use binance_future_agent.Decision.Validate.{parse_decision, validate_decision_payload}
use binance_future_agent.Decision.Sound.{
  IsExecutable, IsExecutableTrade, accepted-IsExecutableTrade,
}

module _ (fl : Float) (o : IsOrdered fl) where
  open fl use {F, lt, le, eq, lit}

  -- A minimum above a bound has its first value above it.
  pub min_left : (a b z : F) → le (Float.min fl a b) z ≡ false → le a z ≡ false
  min_left a b z h = elim (Bool-cases (le a z)) [
    | inl low ↦ ground (arith, o.lt_of_lt_of_le b a z, o.lt-le b z)
    | inr high ↦ high
  ]

  -- And its second, if neither is NaN.
  min_right :
      (a b z : F) → eq a a ≡ true → eq b b ≡ true → le (Float.min fl a b) z ≡ false → le b z ≡ false
  min_right a b z na nb h = elim (Bool-cases (le b z)) [
    | inl low ↦ ground (arith, o.le_of_not_lt b a, o.le_trans a b z)
    | inr high ↦ high
  ]

  -- The values that an order of two prices shows to be numbers.
  numbers :
      {entry stop target notional : F} {side : String} {hold : ℤ} {context : AiDecisionContext fl}
      → IsExecutable fl side entry stop target notional hold context
      → (eq entry entry ≡ true) × (eq stop stop ≡ true) × (eq target target ≡ true)
  numbers {entry} {stop} {target} x = ground (
    arith,
    o.lt-is_number stop entry,
    o.lt-is_number entry target,
    o.lt-is_number target entry,
    o.lt-is_number entry stop,
  )

  min_is_number :
      (a b : F) → eq a a ≡ true → eq b b ≡ true → eq (Float.min fl a b) (Float.min fl a b) ≡ true
  min_is_number a b na nb = ground arith

  IsExecutable-positive :
      {entry stop target notional : F} {side : String} {hold : ℤ} {context : AiDecisionContext fl}
      → IsExecutable fl side entry stop target notional hold context
      → (lt (lit 0 0) entry ≡ true) × (lt (lit 0 0) stop ≡ true) × (lt (lit 0 0) target ≡ true)
  IsExecutable-positive {entry} {stop} {target} {notional} x =
      let (ne, ns, nt) = numbers x in
      let three = min_left _ notional (lit 0 0) x.above_zero in
      let two = min_left _ target (lit 0 0) three in
      let zero = o.zero_is_number in
      (
        o.lt_of_not_le entry (lit 0 0) ne zero (min_left entry stop (lit 0 0) two),
        o.lt_of_not_le stop (lit 0 0) ns zero (min_right entry stop (lit 0 0) ne ns two),
        o.lt_of_not_le target (lit 0 0) nt zero (
            min_right (Float.min fl entry stop) target (lit 0 0) (min_is_number entry stop ne ns) nt
              three),
      )

  -- An accepted trade has an entry price, a stop price and a target price above zero, in every
  -- float order with the laws of IEEE doubles. The three may not be NaN: the order of the prices
  -- rules that out.
  pub accepted_positive :
      (payload : Dict fl) (context : AiDecisionContext fl)
      → (validate_decision_payload fl payload context).accepted ≡ true
      → (parse_decision fl payload).decision ≡ "trade"
      → (x : IsExecutableTrade fl (parse_decision fl payload) context) × (lt (lit 0 0) x.entry
          ≡ true)
        × (lt (lit 0 0) x.stop ≡ true)
        × (lt (lit 0 0) x.target ≡ true)
  accepted_positive payload context h t =
      let x = accepted-IsExecutableTrade fl payload context h t in
      let (pe, ps, pt) = IsExecutable-positive x.keeps_limits in (x, pe, ps, pt)
