-- ===== src/Tests/Decision.antt =====
-- The validation of a decision at a concrete payload.
use binance_future_agent.Base.{◌==◌, arith, true, none, some, ◌≡◌, refl, is_empty}
use binance_future_agent.Base.Fixed.{fixed, fixed_ops}
use binance_future_agent.Base.Ordered.{fixed-IsOrdered}
use binance_future_agent.Base.Text.{text_ops}
use binance_future_agent.Base.Json.{json_ops}
use binance_future_agent.Models.{model_ops}
use binance_future_agent.Decision.{
  validate_decision_payload, parse_decision, decision_errors, validate_ops,
}
use binance_future_agent.Decision.Sound.{IsExecutableTrade, accepted-IsExecutableTrade}
use binance_future_agent.Decision.Positive.{accepted_positive}
use binance_future_agent.Decision.NotANumber.{IsNan, decision_errors-nan}
use binance_future_agent.Tests.Data.{payload, context, trade}

payload_accepted : (validate_decision_payload fixed payload context).accepted ≡ true
unfolding validate_ops json_ops text_ops fixed_ops model_ops ◌==◌
payload_accepted = refl

payload_trades : (parse_decision fixed payload).decision ≡ "trade"
unfolding validate_ops json_ops text_ops fixed_ops model_ops ◌==◌
payload_trades = refl

accepted-IsExecutableTrade_example : IsExecutableTrade fixed (parse_decision fixed payload) context
accepted-IsExecutableTrade_example =
    accepted-IsExecutableTrade fixed payload context payload_accepted payload_trades

accepted_positive_example :
    (x : IsExecutableTrade fixed (parse_decision fixed payload) context) × (fixed.lt
        (fixed.lit 0 0)
        x.entry
      ≡ true)
    × (fixed.lt (fixed.lit 0 0) x.stop ≡ true)
    × (fixed.lt (fixed.lit 0 0) x.target ≡ true)
accepted_positive_example =
    accepted_positive fixed fixed-IsOrdered payload context payload_accepted payload_trades

none-IsNan : IsNan fixed none
unfolding fixed_ops
none-IsNan = record {
  itself = record { not_below = λ y. refl; not_above = λ y. ground arith; not_at_most = λ y. refl };
  products =
      λ y. record { not_below = λ z. refl; not_above = λ z. ground arith; not_at_most = λ z. refl };
  differences =
      λ y. record { not_below = λ z. refl; not_above = λ z. ground arith; not_at_most = λ z. refl };
}

trade_passes : is_empty (decision_errors fixed trade context) ≡ true
unfolding validate_ops json_ops text_ops fixed_ops model_ops ◌==◌
trade_passes = refl

decision_errors-nan_example :
    is_empty (decision_errors fixed (record trade { notional_usdt = some none }) context) ≡ true
decision_errors-nan_example =
    decision_errors-nan fixed fixed-IsOrdered none none-IsNan context trade refl trade_passes
