-- ===== src/Risk/Gates.antt =====
-- What the verdict of `evaluate_risk` says: the intents that pass, and the reasons given.
use binance_future_agent.Base.{
  String, Bool, true, false, some, [], ◌∷◌, ◌≡◌, ◌↔◌, ◌⊎◌, inl, inr, Bool-cases, arith, is_empty,
  contains, is_empty-dedupe, contains-dedupe, contains-append, NoRepeats, NoRepeats-dedupe,
  dedupe_one, contains-nonempty, contains-append_left, contains-when,
}
use binance_future_agent.Base.Float.{Float}
use binance_future_agent.Config.{Mode, AppConfig, setting}
use binance_future_agent.Models.{DecisionValidationResult, RiskLimits, OrderIntent, RiskState}
use binance_future_agent.Risk.{
  kill_switch_active, is_live, live_reasons, all_reasons, evaluate_intent, evaluate_risk,
}
use binance_future_agent.Risk.Clear.{IsClear, NoReasons-IsClear, all_reasons-NoReasons}

module _ (fl : Float) (exists : String → Bool) (limits : RiskLimits fl) (state : RiskState fl)
    (mode : Mode) (config : AppConfig) (now : String) (intent : OrderIntent fl)
    (v : DecisionValidationResult fl) where
  -- An intent is accepted exactly when no gate stops it: the decision of the provider, the caps on
  -- the notional, the leverage, the losses of the day and the stop risk, the rules on open
  -- positions, the margin, the free balance and the notional of the portfolio after the entry, the
  -- cool-down, and in live mode the kill switch and the credentials.
  pub evaluate_accepts_iff :
      ((evaluate_risk fl exists limits state mode config now (some intent) v).accepted ≡ true)
      ↔ IsClear fl exists limits state mode config now intent v
  unfolding evaluate_risk evaluate_intent
  evaluate_accepts_iff = (
    (λ h.
        (NoReasons-IsClear fl exists limits state mode config now intent v).0
          ((all_reasons-NoReasons fl exists limits state mode config now intent v).0 h)),
    (λ c.
        (all_reasons-NoReasons fl exists limits state mode config now intent v).1
          ((NoReasons-IsClear fl exists limits state mode config now intent v).1 c)),
  )

  -- Every verdict on an intent gives at least one reason and none twice; it rejects, or its one reason
  -- is `risk_accepted`.
  pub evaluate_reasons :
      let verdict = evaluate_risk fl exists limits state mode config now (some intent) v in
      NoRepeats verdict.reason_codes
      × (is_empty verdict.reason_codes ≡ false)
      × ((verdict.accepted ≡ false) ⊎ (verdict.reason_codes ≡ "risk_accepted" ∷ []))
  unfolding evaluate_risk evaluate_intent
  evaluate_reasons = (
    NoRepeats-dedupe _,
    rw is_empty-dedupe (ground arith),
    elim (Bool-cases (is_empty (all_reasons fl exists limits state mode config now intent v))) [
      | inl h ↦ inr (rw h (dedupe_one "risk_accepted"))
      | inr h ↦ inl h
    ],
  )

  -- A reason among those that were collected is in the verdict, which then rejects.
  pub evaluate_names :
      (reason : String)
      → contains (all_reasons fl exists limits state mode config now intent v) reason ≡ true
      → let verdict = evaluate_risk fl exists limits state mode config now (some intent) v in
        (verdict.accepted ≡ false) × (contains verdict.reason_codes reason ≡ true)
  unfolding evaluate_risk evaluate_intent
  evaluate_names reason h =
      let some_reason = contains-nonempty _ reason h in
      (some_reason, rw (some_reason, contains-dedupe) h)

  kill_switch_listed :
      is_live mode ≡ true
      → kill_switch_active exists (setting config "BFA_KILL_SWITCH_FILE" "") ≡ true
      → contains (live_reasons fl exists limits state mode config now intent) "kill_switch_active"
        ≡ true
  unfolding live_reasons
  kill_switch_listed l a =
      rw l (contains-append_left _ _ "kill_switch_active" (contains-when _ "kill_switch_active" a))

  -- In live mode an existing kill switch file stops every intent, and the verdict names it.
  pub kill_switch_stops :
      is_live mode ≡ true
      → kill_switch_active exists (setting config "BFA_KILL_SWITCH_FILE" "") ≡ true
      → let verdict = evaluate_risk fl exists limits state mode config now (some intent) v in
        (verdict.accepted ≡ false) × (contains verdict.reason_codes "kill_switch_active" ≡ true)
  unfolding all_reasons
  kill_switch_stops l a =
      evaluate_names "kill_switch_active"
        (simp contains-append (ground (arith, kill_switch_listed l a)))
