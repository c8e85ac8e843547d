-- ===== src/Decision/NotANumber.antt =====
-- How validation treats a notional that is NaN, which `json.loads` reads and `float` keeps.
use binance_future_agent.Base.{
  String, true, false, refl, Option, none, some, ◌≡◌, arith, inl, inr, Option-cases, is_empty,
  is_none, is_empty-append,
}
use binance_future_agent.Base.Int.{ℤ}
use binance_future_agent.Base.Float
use binance_future_agent.Base.Float.{Float, IsOrdered}
use binance_future_agent.Base.Json.{Dict, get}
use binance_future_agent.Models.{AiTradeDecision}
use binance_future_agent.Decision.Parse.{AiDecisionContext, number_of, min_executable_notional}
use binance_future_agent.Decision.Sound.{trade_errors}
use binance_future_agent.Decision.Positive.{min_left}
use binance_future_agent.Decision.Validate.{
  stop_risk, price_errors, value_errors, missing_values, complete_errors, validate_trade,
  echo_differs, echo_errors, validate_quant_setup_echo, decision_errors, test_some,
}

module _ (fl : Float) where
  open fl use {F, lt, le, mul, sub, lit}

  -- Every comparison with such a value is false.
  pub record IsUnordered (x : F) : Type 0 where
    pub not_below : (y : F) → lt x y ≡ false
    pub not_above : (y : F) → lt y x ≡ false
    pub not_at_most : (y : F) → le x y ≡ false

  -- NaN, and what arithmetic makes of it.
  pub record IsNan (x : F) : Type 0 where
    pub itself : IsUnordered x
    pub products : (y : F) → IsUnordered (mul x y)
    pub differences : (y : F) → IsUnordered (sub x y)

  module _ (o : IsOrdered fl) (x : F) (nan : IsNan x) (context : AiDecisionContext fl) where
    passes_least : (least : Option F) → test_some fl least (λ least. lt x least) ≡ false
    passes_least none = refl
    passes_least (some least) = nan.itself.not_below least

    passes_risk :
        (e s n : F) (cap : F)
        → lt cap (stop_risk fl (some e) (some s) (some n)) ≡ false
        → lt cap (stop_risk fl (some e) (some s) (some x)) ≡ false
    unfolding stop_risk
    passes_risk e s n cap h =
        ground (arith, (nan.products (fl.div (Float.abs fl (sub e s)) e)).not_above cap)

    price_errors-nan :
        (side : String) (e s t n : F)
        → is_empty (price_errors fl side e s t n context) ≡ true
        → is_empty (price_errors fl side e s t x context) ≡ true
    unfolding price_errors
    price_errors-nan side e s t n h = ground (
      arith,
      nan.itself.not_above context.risk_limits.max_position_notional_usdt,
      nan.itself.not_above
          (mul context.risk_limits.account_capital_usdt context.risk_limits.max_leverage),
      passes_risk e s n context.risk_limits.max_risk_per_trade_usdt,
      passes_least (min_executable_notional fl context),
    )

    value_errors-nan :
        (side : String) (e s t n : F) (hold : ℤ)
        → is_empty (value_errors fl side e s t n hold context) ≡ true
        → is_empty (value_errors fl side e s t x hold context) ≡ true
    unfolding value_errors
    value_errors-nan side e s t n hold h =
        let m = Float.min fl (Float.min fl e s) t in
        ground (
          arith,
          nan.itself.not_below m,
          min_left fl o m n (lit 0 0),
          price_errors-nan side e s t n,
        )

    complete_errors-nan :
        (side : String) (e s t n : Option F) (hold : Option ℤ)
        → is_none n ≡ false
        → is_empty (complete_errors fl side e s t n hold context) ≡ true
        → is_empty (complete_errors fl side e s t (some x) hold context) ≡ true
    unfolding complete_errors
    complete_errors-nan side (some e) (some s) (some t) (some n) (some hold) p h =
        value_errors-nan side e s t n hold h
    complete_errors-nan side e s t none hold p h = cc
    complete_errors-nan side _ _ _ _ _ p h = refl

    abbrev swapped : AiTradeDecision fl → AiTradeDecision fl
    swapped d = record d { notional_usdt = some x }

    validate_trade-nan :
        (d : AiTradeDecision fl)
        → is_empty (validate_trade fl d context) ≡ true
        → is_empty (validate_trade fl (swapped d) context) ≡ true
    unfolding validate_trade missing_values
    validate_trade-nan d h = ground (
      arith,
      complete_errors-nan d.side d.entry_price d.stop_price d.target_price d.notional_usdt
          d.hold_time_minutes,
    )

    echo_differs-nan : (expected : Option F) → echo_differs fl expected (some x) ≡ false
    unfolding echo_differs
    echo_differs-nan none = refl
    echo_differs-nan (some e) =
        let gap = nan.differences e in
        ground (
          arith,
          gap.not_below (lit 0 0),
          gap.not_above (Float.max fl (mul (Float.abs fl e) (lit 1 6)) (lit 1 8)),
        )

    echo_errors-nan :
        (d : AiTradeDecision fl) (setup : Dict fl)
        → is_empty (echo_errors fl d setup) ≡ true
        → is_empty (echo_errors fl (swapped d) setup) ≡ true
    unfolding echo_errors
    echo_errors-nan d setup h =
        ground (arith, echo_differs-nan (number_of (get setup "notional_usdt")))

    echo-nan :
        (d : AiTradeDecision fl)
        → is_empty (validate_quant_setup_echo fl d context) ≡ true
        → is_empty (validate_quant_setup_echo fl (swapped d) context) ≡ true
    unfolding validate_quant_setup_echo
    echo-nan d h = elim (Option-cases context.quant_setup) [
      | inl without ↦ ground arith
      | inr (setup, e) ↦ ground (arith, echo_errors-nan d setup)
    ]

    -- If a trade passes every check, so does the same trade with NaN for its notional: none of the
    -- limits on the notional, on the stop risk or on the echo of the setup turns it away.
    pub decision_errors-nan :
        (d : AiTradeDecision fl)
        → d.decision ≡ "trade"
        → is_empty (decision_errors fl d context) ≡ true
        → is_empty (decision_errors fl (record d { notional_usdt = some x }) context) ≡ true
    decision_errors-nan d t h = ground (
      arith,
      trade_errors fl d context t,
      trade_errors fl (swapped d) context t,
      validate_trade-nan d,
      echo-nan d,
      is_empty-append (validate_trade fl d context) (validate_quant_setup_echo fl d context),
      is_empty-append (validate_trade fl (swapped d) context)
          (validate_quant_setup_echo fl (swapped d) context),
    )
