-- ===== src/Decision/Sound.antt =====
-- What acceptance of an AI decision promises.
use binance_future_agent.Base.{
  String, true, false, Option, none, some, ◌≡◌, ◌⊎◌, arith, is_empty, is_empty-append, ==_iff,
  some_of, is_none, ◌++◌, ◌==◌,
}
use binance_future_agent.Base.Int.{ℤ, pos, ◌≤ℤ◌}
use binance_future_agent.Base.Float
use binance_future_agent.Base.Float.{Float}
use binance_future_agent.Base.Json.{Dict}
use binance_future_agent.Models.{AiTradeDecision}
use binance_future_agent.Decision.Parse.{
  AiDecisionContext, reference_price, min_executable_notional,
}
use binance_future_agent.Decision.Validate.{
  stop_risk, entry_deviation_percent, price_errors, value_errors, missing_values, complete_errors,
  validate_trade, decision_errors, field_errors, parse_decision, validate_decision_payload,
  validate_quant_setup_echo,
}

module _ (fl : Float) where
  open fl use {F, lt, le, mul, lit}

  -- What holds where a value is there.
  abbrev pub IfSome : Option F → (F → Type 0) → Type 0
  IfSome none P = Unit
  IfSome (some x) P = P x

  -- A complete trade that keeps every limit of its context.
  pub record IsExecutable (side : String) (entry stop target notional : F) (hold : ℤ)
      (context : AiDecisionContext fl) : Type 0 where
    pub geometry :
        ((side ≡ "long") × (lt stop entry ≡ true) × (lt entry target ≡ true))
        ⊎ ((side ≡ "short") × (lt target entry ≡ true) × (lt entry stop ≡ true))
    pub above_zero :
        le (Float.min fl (Float.min fl (Float.min fl entry stop) target) notional) (lit 0 0) ≡ false
    pub hold_positive : pos 1 ≤ℤ hold
    pub within_notional : lt context.risk_limits.max_position_notional_usdt notional ≡ false
    pub within_leverage :
        lt (mul context.risk_limits.account_capital_usdt context.risk_limits.max_leverage) notional
        ≡ false
    pub within_risk :
        lt context.risk_limits.max_risk_per_trade_usdt
          (stop_risk fl (some entry) (some stop) (some notional))
        ≡ false
    pub near_reference :
        IfSome
          (reference_price fl context)
          (λ r. lt (lit 175 2) (entry_deviation_percent fl entry r) ≡ false)
    pub executable :
        IfSome (min_executable_notional fl context) (λ least. lt notional least ≡ false)

  price_errors-IsExecutable :
      (side : String) (entry stop target notional : F) (hold : ℤ) (context : AiDecisionContext fl)
      → (side ≡ "long") ⊎ (side ≡ "short")
      → le (Float.min fl (Float.min fl (Float.min fl entry stop) target) notional) (lit 0 0) ≡ false
      → pos 1 ≤ℤ hold
      → is_empty (price_errors fl side entry stop target notional context) ≡ true
      → IsExecutable side entry stop target notional hold context
  unfolding price_errors
  price_errors-IsExecutable side entry stop target notional hold context s z h e =
      ground (arith, ==_iff side "long", ==_iff side "short")

  value_errors-IsExecutable :
      (side : String) (entry stop target notional : F) (hold : ℤ) (context : AiDecisionContext fl)
      → (side ≡ "long") ⊎ (side ≡ "short")
      → is_empty (value_errors fl side entry stop target notional hold context) ≡ true
      → IsExecutable side entry stop target notional hold context
  unfolding value_errors
  value_errors-IsExecutable side entry stop target notional hold context s e =
      price_errors-IsExecutable side entry stop target notional hold context s (ground arith)
        (ground arith) (ground arith)

  -- A decision whose values are all there and make an executable trade.
  pub record IsExecutableTrade (d : AiTradeDecision fl) (context : AiDecisionContext fl)
      : Type 0 where
    pub entry : F
    pub stop : F
    pub target : F
    pub notional : F
    pub hold : ℤ
    pub has_entry : d.entry_price ≡ some entry
    pub has_stop : d.stop_price ≡ some stop
    pub has_target : d.target_price ≡ some target
    pub has_notional : d.notional_usdt ≡ some notional
    pub has_hold : d.hold_time_minutes ≡ some hold
    pub keeps_limits : IsExecutable d.side entry stop target notional hold context

  -- No value is missing.
  abbrev NoneMissing : AiTradeDecision fl → Type 0
  NoneMissing d =
      (is_none d.entry_price ≡ false)
      × (is_none d.stop_price ≡ false)
      × (is_none d.target_price ≡ false)
      × (is_none d.notional_usdt ≡ false)
      × (is_none d.hold_time_minutes ≡ false)

  missing_values-NoneMissing :
      (d : AiTradeDecision fl) → is_empty (missing_values fl d) ≡ true → NoneMissing d
  unfolding missing_values
  missing_values-NoneMissing d h = ground arith

  -- The three parts of an empty list of trade errors.
  validate_trade_parts :
      (d : AiTradeDecision fl) (context : AiDecisionContext fl)
      → is_empty (validate_trade fl d context) ≡ true
      → ((d.side ≡ "long") ⊎ (d.side ≡ "short"))
        × (is_empty (missing_values fl d) ≡ true)
        × (is_empty (
              complete_errors fl d.side d.entry_price d.stop_price d.target_price d.notional_usdt
                d.hold_time_minutes context)
            ≡ true)
  unfolding validate_trade
  validate_trade_parts d context h = ground (
    arith,
    ==_iff d.side "long",
    ==_iff d.side "short",
    is_empty-append (missing_values fl d) (
        complete_errors fl d.side d.entry_price d.stop_price d.target_price d.notional_usdt
          d.hold_time_minutes context),
  )

  validate_trade-IsExecutableTrade :
      (d : AiTradeDecision fl) (context : AiDecisionContext fl)
      → is_empty (validate_trade fl d context) ≡ true
      → IsExecutableTrade d context
  unfolding complete_errors
  validate_trade-IsExecutableTrade d context h =
      let (side, missing, complete) = validate_trade_parts d context h in
      let present = missing_values-NoneMissing d missing in
      let (e, he) = some_of d.entry_price present.0 in
      let (s, hs) = some_of d.stop_price present.1 in
      let (t, ht) = some_of d.target_price present.2 in
      let (n, hn) = some_of d.notional_usdt present.3 in
      let (m, hm) = some_of d.hold_time_minutes present.4 in
      record {
        entry = e;
        stop = s;
        target = t;
        notional = n;
        hold = m;
        has_entry = he;
        has_stop = hs;
        has_target = ht;
        has_notional = hn;
        has_hold = hm;
        keeps_limits =
            value_errors-IsExecutable d.side e s t n m context side
              (rw (he, hs, ht, hn, hm) at complete);
      }

  pub trade_errors :
      (d : AiTradeDecision fl) (context : AiDecisionContext fl)
      → d.decision ≡ "trade"
      → decision_errors fl d context
        ≡ validate_trade fl d context ++ validate_quant_setup_echo fl d context
  unfolding decision_errors ◌==◌
  trade_errors d context t = rw t

  -- When a payload is accepted whose decision is `trade`, every value of the trade is there, its
  -- prices stand in the order of its side, its holding time is positive, and its notional, its stop
  -- risk, its distance from the reference price and the least notional that can be executed keep
  -- the limits of the context.
  pub accepted-IsExecutableTrade :
      (payload : Dict fl) (context : AiDecisionContext fl)
      → (validate_decision_payload fl payload context).accepted ≡ true
      → (parse_decision fl payload).decision ≡ "trade"
      → IsExecutableTrade (parse_decision fl payload) context
  unfolding validate_decision_payload
  accepted-IsExecutableTrade payload context h t =
      validate_trade-IsExecutableTrade (parse_decision fl payload) context (
        ground (
          arith,
          trade_errors (parse_decision fl payload) context t,
          is_empty-append (field_errors fl payload (parse_decision fl payload))
              (decision_errors fl (parse_decision fl payload) context),
          is_empty-append (validate_trade fl (parse_decision fl payload) context)
              (validate_quant_setup_echo fl (parse_decision fl payload) context),
        ))
