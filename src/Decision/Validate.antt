-- ===== src/Decision/Validate.antt =====
-- src/bfa/ai/decision.py: `validate_decision_payload` and the checks that it runs. A check returns
-- the errors that the source's appends.
use binance_future_agent.Base.{
  String, Bool, true, false, not, ◌&&◌, ◌||◌, Option, none, some, List, [], ◌∷◌, ◌++◌, ◌==◌,
  if◌then◌else◌, or_default, is_some, is_none, is_empty, when, dedupe, contains, text_lt,
}
use binance_future_agent.Base.Int.{ℤ, pos, leb_ℤ, eqb_ℤ}
use binance_future_agent.Base.Float
use binance_future_agent.Base.Float.{Float}
use binance_future_agent.Base.Json.{Dict, get}
use binance_future_agent.Models.{AiTradeDecision, DecisionValidationResult}
use binance_future_agent.Decision.Parse.{
  key_errors, text_only, number_of, whole_of, reasons_of, AiDecisionContext, reference_price,
  min_executable_notional, sort_texts,
}
use binance_future_agent.Config.{config_ops}

module _ (fl : Float) where
  open fl use {F, add, sub, mul, div, lt, le, eq, lit}

  -- `estimate_stop_risk_usdt`
  unfoldable pub stop_risk : Option F → Option F → Option F → F
  stop_risk (some entry) (some stop) (some notional) =
      if eq entry (lit 0 0)
      then lit 0 0
      else mul notional (div (Float.abs fl (sub entry stop)) entry)
  stop_risk _ _ _ = lit 0 0

  abbrev pub estimate_stop_risk_usdt : AiTradeDecision fl → F
  estimate_stop_risk_usdt d = stop_risk d.entry_price d.stop_price d.notional_usdt

  -- `_entry_deviation_percent`, where the reference price is positive.
  unfoldable pub entry_deviation_percent : F → F → F
  entry_deviation_percent entry reference =
      if le reference (lit 0 0)
      then lit 0 0
      else mul (div (Float.abs fl (sub entry reference)) reference) (lit 1000 1)

  -- `value is not None and test(value)`
  abbrev pub test_some : Option F → (F → Bool) → Bool
  test_some none test = false
  test_some (some x) test = test x

  -- `_validate_pass`: the errors, and the warnings.
  unfoldable pub validate_pass : AiTradeDecision fl → List String × List String
  validate_pass d = (
    when (not (d.side == "flat")) "pass_requires_flat_side",
    when
        (is_some d.entry_price
          || (is_some d.stop_price || (is_some d.target_price || is_some d.notional_usdt)))
        "pass_ignored_trade_prices",
  )

  -- The `missing` list.
  unfoldable pub missing_values : AiTradeDecision fl → List String
  missing_values d =
      when (is_none d.entry_price) "trade_missing_entry_price"
      ++ (when (is_none d.stop_price) "trade_missing_stop_price"
          ++ (when (is_none d.target_price) "trade_missing_target_price"
              ++ (when (is_none d.notional_usdt) "trade_missing_notional_usdt"
                  ++ when (is_none d.hold_time_minutes) "trade_missing_hold_time_minutes")))

  -- The checks on the prices of a trade, once they are known to be positive.
  unfoldable pub price_errors : String → F → F → F → F → AiDecisionContext fl → List String
  price_errors side entry stop target notional context =
      when (side == "long" && not (lt stop entry && lt entry target)) "invalid_long_price_geometry"
      ++ (when (side == "short" && not (lt target entry && lt entry stop))
            "invalid_short_price_geometry"
          ++ (when (lt context.risk_limits.max_position_notional_usdt notional)
                "notional_exceeds_cap"
              ++ (when
                    (lt
                      (mul context.risk_limits.account_capital_usdt
                        context.risk_limits.max_leverage)
                      notional)
                    "notional_exceeds_leverage_cap"
                  ++ (when
                        (lt context.risk_limits.max_risk_per_trade_usdt
                          (stop_risk (some entry) (some stop) (some notional)))
                        "risk_exceeds_cap"
                      ++ (when
                            (test_some (reference_price fl context) (λ reference.
                              lt (lit 175 2) (entry_deviation_percent entry reference)))
                            "entry_too_far_from_reference_price"
                          ++ when
                              (test_some (min_executable_notional fl context)
                                (λ least. lt notional least))
                              "notional_below_min_executable")))))

  -- The checks once no value is missing.
  unfoldable pub value_errors : String → F → F → F → F → ℤ → AiDecisionContext fl → List String
  value_errors side entry stop target notional hold context =
      when (leb_ℤ hold (pos 0)) "invalid_hold_time"
      ++ (if le (Float.min fl (Float.min fl (Float.min fl entry stop) target) notional) (lit 0 0)
          then "trade_values_must_be_positive" ∷ []
          else price_errors side entry stop target notional context)

  unfoldable pub complete_errors :
      String
      → Option F
      → Option F
      → Option F
      → Option F
      → Option ℤ
      → AiDecisionContext fl
      → List String
  complete_errors side (some e) (some s) (some t) (some n) (some h) context =
      value_errors side e s t n h context
  complete_errors side _ _ _ _ _ context = []

  -- `_validate_trade`
  unfoldable pub validate_trade : AiTradeDecision fl → AiDecisionContext fl → List String
  validate_trade d context =
      when (not (d.side == "long" || d.side == "short")) "trade_requires_long_or_short_side"
      ++ (missing_values d
          ++ complete_errors d.side d.entry_price d.stop_price d.target_price d.notional_usdt
              d.hold_time_minutes context)

  -- One round of the loop over `checks`: the setup's value and the decision's.
  unfoldable pub echo_differs : Option F → Option F → Bool
  echo_differs (some expected) (some actual) =
      lt (Float.max fl (mul (Float.abs fl expected) (lit 1 6)) (lit 1 8))
        (Float.abs fl (sub actual expected))
  echo_differs _ _ = false

  hold_differs : Option ℤ → Option ℤ → Bool
  hold_differs none actual = false
  hold_differs (some expected) none = true
  hold_differs (some expected) (some actual) = not (eqb_ℤ actual expected)

  text_is : Option String → String → Bool
  text_is none s = false
  text_is (some t) s = t == s

  -- `_validate_quant_setup_echo`
  unfoldable pub echo_errors : AiTradeDecision fl → Dict fl → List String
  unfolding hold_differs text_is
  echo_errors d setup =
      if not (text_is (text_only (get setup "decision")) "trade")
      then "quant_setup_not_trade" ∷ []
      else when (not (text_is (text_only (get setup "side")) d.side)) "quant_setup_side_mismatch"
        ++ (when (echo_differs (number_of (get setup "entry_price")) d.entry_price)
              "quant_setup_entry_price_mismatch"
            ++ (when (echo_differs (number_of (get setup "stop_price")) d.stop_price)
                  "quant_setup_stop_price_mismatch"
                ++ (when (echo_differs (number_of (get setup "target_price")) d.target_price)
                      "quant_setup_target_price_mismatch"
                    ++ (when (echo_differs (number_of (get setup "notional_usdt")) d.notional_usdt)
                          "quant_setup_notional_usdt_mismatch"
                        ++ when
                            (hold_differs (whole_of (get setup "hold_time_minutes"))
                              d.hold_time_minutes)
                            "quant_setup_hold_time_mismatch"))))

  unfoldable pub validate_quant_setup_echo : AiTradeDecision fl → AiDecisionContext fl → List String
  validate_quant_setup_echo d context = elim context.quant_setup [
    | none ↦ []
    | some setup ↦ echo_errors d setup
  ]

  -- The steps on `confidence`: whether it is taken for a percentage, its value, and the value kept.
  abbrev is_percentage : Option F → Bool
  is_percentage c = test_some c (λ x. lt (lit 1 0) x && le x (lit 100 0))

  abbrev normalized_confidence : Option F → Option F
  normalized_confidence none = none
  normalized_confidence (some x) =
      some (if lt (lit 1 0) x && le x (lit 100 0) then div x (lit 100 0) else x)

  abbrev is_confidence : Option F → Bool
  is_confidence c = test_some c (λ x. not (lt x (lit 0 0) || lt (lit 1 0) x))

  abbrev kept_confidence : Option F → F
  kept_confidence c = if is_confidence c then or_default c (lit 0 0) else lit 0 0

  -- The parsed decision.
  unfoldable pub parse_decision : Dict fl → AiTradeDecision fl
  parse_decision payload = record {
    decision = or_default (text_only (get payload "decision")) "";
    side = or_default (text_only (get payload "side")) "";
    confidence = kept_confidence (normalized_confidence (number_of (get payload "confidence")));
    entry_price = number_of (get payload "entry_price");
    stop_price = number_of (get payload "stop_price");
    target_price = number_of (get payload "target_price");
    notional_usdt = number_of (get payload "notional_usdt");
    hold_time_minutes = whole_of (get payload "hold_time_minutes");
    reasons = reasons_of (get payload "reasons");
  }

  -- The errors of the fields, before the decision is looked at as a whole. An absent text is no
  -- member of either set, and neither is the blank that stands for it in the decision.
  unfoldable pub field_errors : Dict fl → AiTradeDecision fl → List String
  field_errors payload d =
      key_errors payload
      ++ (when (not (d.decision == "trade" || d.decision == "pass")) "invalid_decision"
          ++ (when (not (d.side == "long" || (d.side == "short" || d.side == "flat")))
                "invalid_side"
              ++ (when
                    (not (
                      is_confidence (normalized_confidence (number_of (get payload "confidence")))))
                    "invalid_confidence"
                  ++ when (is_empty d.reasons) "missing_reasons")))

  -- The errors of the decision as a whole.
  unfoldable pub decision_errors : AiTradeDecision fl → AiDecisionContext fl → List String
  decision_errors d context =
      if d.decision == "pass"
      then (validate_pass d).0
      else if d.decision == "trade"
      then validate_trade d context ++ validate_quant_setup_echo d context
      else []

  -- `validate_decision_payload`
  unfoldable pub validate_decision_payload :
      Dict fl → AiDecisionContext fl → DecisionValidationResult fl
  validate_decision_payload payload context =
      let d = parse_decision payload in
      let errors = field_errors payload d ++ decision_errors d context in
      let warnings =
        when (is_percentage (number_of (get payload "confidence"))) "confidence_percent_normalized"
        ++ (if d.decision == "pass" then (validate_pass d).1 else []) in
      record {
        accepted = is_empty errors;
        decision = some d;
        validation_errors = dedupe errors;
        validation_warnings = dedupe warnings;
      }

-- A run of the validation opens all of these with this one name.
unfoldable pub validate_ops : Unit {0}
unfolding missing_values complete_errors stop_risk entry_deviation_percent validate_pass
    price_errors value_errors validate_trade echo_differs echo_errors validate_quant_setup_echo
    parse_decision field_errors decision_errors validate_decision_payload key_errors text_only
    number_of whole_of reasons_of reference_price min_executable_notional sort_texts text_lt dedupe
    contains config_ops
validate_ops = tt
