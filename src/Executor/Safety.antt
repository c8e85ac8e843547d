-- ===== src/Executor/Safety.antt =====
-- What a run of the engine may do: src/bfa/execution/executor.py, `ExecutionEngine.run`.
use binance_future_agent.Base.{
  Bool, true, Option, none, some, ◌∷◌, ◌≡◌, ◌≢◌, refl, ap, ◌⊎◌, inl, inr, arith,
}
use binance_future_agent.Base.Float.{Float}
use binance_future_agent.Config.{Mode, dry_run, testnet, live, setting, parse_mode}
use binance_future_agent.Models.{OrderIntent, RiskDecision}
use binance_future_agent.Decimal.{Decimals}
use binance_future_agent.Risk.{intent_from_ai_decision}
use binance_future_agent.Risk.Clear.{IsClear}
use binance_future_agent.Risk.Gates.{evaluate_accepts_iff}
use binance_future_agent.Executor.Client.{
  Exchange, World, Outcome, OrderRequest, test_order, is_ok, send, Action,
}
use binance_future_agent.Executor.Entered.{
  Engine, RunInput, ExecutionResult, finish, reject, test_arguments, test_request,
}
use binance_future_agent.Executor.Run.{
  gate, run_live, run_testnet, with_client, run_mode, run_gated, run_intent, run_built, run_parsed,
  run,
}

module _ {fl : Float} (dec : Decimals fl) (engine : Engine fl) (input : RunInput fl) where
  -- An intent of the decision that every gate lets through, with a client to send it.
  pub record IsCleared : Type 0 where
    pub mode : Mode
    pub intent : OrderIntent fl
    pub verdict : RiskDecision
    pub mode_set : parse_mode (setting engine.config "BFA_MODE" "") ≡ some mode
    pub not_dry : mode ≢ dry_run
    pub of_decision :
        intent_from_ai_decision fl dec input.symbol engine.limits mode input.decided_at
          input.validation input.filters
        ≡ some (some intent, verdict)
    pub verdict_accepted : verdict.accepted ≡ true
    pub clear :
        IsClear fl engine.exists engine.limits input.risk_state mode engine.config input.now intent
          input.validation
    pub client : engine.has_client ≡ true

module _ {fl : Float} {ex : Exchange fl} (dec : Decimals fl) (engine : Engine fl)
    (input : RunInput fl) where
  -- A run that left the log of calls as it was.
  abbrev Silent : World fl ex → Outcome (Option (ExecutionResult fl)) × World fl ex → Type 0
  Silent w result = result.1.calls ≡ w.calls

  with_client-Silent :
      (intent : OrderIntent fl) (continue : Action fl ex (Option (ExecutionResult fl)))
      (w : World fl ex)
      → Silent w (with_client dec engine input intent continue w) ⊎ (engine.has_client ≡ true)
  unfolding with_client reject finish
  with_client-Silent intent continue w = ground arith

  run_mode-Silent :
      (mode : Mode) (intent : OrderIntent fl) (risk : RiskDecision) (w : World fl ex)
      → Silent w (run_mode dec engine input mode intent risk w)
        ⊎ ((mode ≢ dry_run) × (engine.has_client ≡ true))
  unfolding run_mode finish
  run_mode-Silent dry_run intent risk w = inl refl
  run_mode-Silent testnet intent risk w =
      ground (arith, with_client-Silent intent (run_testnet dec engine input intent risk) w)
  run_mode-Silent live intent risk w =
      ground (arith, with_client-Silent intent (run_live dec engine input live intent risk) w)

  run_gated-Silent :
      (mode : Mode) (intent : OrderIntent fl) (w : World fl ex)
      → Silent w (run_gated dec engine input mode (some intent) w)
        ⊎ (((gate engine input mode (some intent)).accepted ≡ true)
            × (mode ≢ dry_run)
            × (engine.has_client ≡ true))
  unfolding run_gated reject finish
  run_gated-Silent mode intent w =
      ground (arith, run_mode-Silent mode intent (gate engine input mode (some intent)) w)

  run_intent-Silent_absent :
      (mode : Mode) (verdict : RiskDecision) (w : World fl ex)
      → Silent w (run_intent dec engine input mode (none, verdict) w)
  unfolding run_intent run_gated reject finish
  run_intent-Silent_absent mode verdict w = ground arith

  run_intent-Silent_given :
      (mode : Mode) (intent : OrderIntent fl) (verdict : RiskDecision) (w : World fl ex)
      → Silent w (run_intent dec engine input mode (some intent, verdict) w)
        ⊎ ((verdict.accepted ≡ true)
            × ((gate engine input mode (some intent)).accepted ≡ true)
            × (mode ≢ dry_run)
            × (engine.has_client ≡ true))
  unfolding run_intent reject finish
  run_intent-Silent_given mode intent verdict w = ground (arith, run_gated-Silent mode intent w)

  run_intent-Silent :
      (mode : Mode) (result : Option (OrderIntent fl) × RiskDecision) (w : World fl ex)
      → parse_mode (setting engine.config "BFA_MODE" "") ≡ some mode
      → intent_from_ai_decision fl dec input.symbol engine.limits mode input.decided_at
          input.validation input.filters
        ≡ some result
      → Silent w (run_intent dec engine input mode result w) ⊎ IsCleared dec engine input
  unfolding gate
  run_intent-Silent mode (none, verdict) w m h = inl (run_intent-Silent_absent mode verdict w)
  run_intent-Silent mode (some intent, verdict) w m h =
      elim (run_intent-Silent_given mode intent verdict w) [
        | inl silent ↦ inl silent
        | inr (accepted, gated, not_dry, client) ↦ inr (record {
          mode = mode;
          intent = intent;
          verdict = verdict;
          mode_set = m;
          not_dry = not_dry;
          of_decision = h;
          verdict_accepted = accepted;
          clear =
              (evaluate_accepts_iff fl engine.exists engine.limits input.risk_state mode
                  engine.config input.now intent input.validation).0
                gated;
          client = client;
        })
      ]

  run_built-Silent :
      (mode : Mode) (built : Option (Option (OrderIntent fl) × RiskDecision)) (w : World fl ex)
      → parse_mode (setting engine.config "BFA_MODE" "") ≡ some mode
      → intent_from_ai_decision fl dec input.symbol engine.limits mode input.decided_at
          input.validation input.filters
        ≡ built
      → Silent w (run_built dec engine input mode built w) ⊎ IsCleared dec engine input
  unfolding run_built
  run_built-Silent mode none w m h = inl refl
  run_built-Silent mode (some result) w m h = run_intent-Silent mode result w m h

  run_parsed-Silent :
      (parsed : Option Mode) (w : World fl ex)
      → parse_mode (setting engine.config "BFA_MODE" "") ≡ parsed
      → Silent w (run_parsed dec engine input parsed w) ⊎ IsCleared dec engine input
  unfolding run_parsed
  run_parsed-Silent none w m = inl refl
  run_parsed-Silent (some mode) w m = run_built-Silent mode _ w m refl

  -- However the exchange behaves, a run calls it only for an intent that the decision gave and that
  -- every gate of `evaluate_risk` lets through, in a mode that is not the dry run, and with a client:
  -- otherwise the log of calls stays as it was.
  pub run-Silent :
      (w : World fl ex) → Silent w (run dec engine input w) ⊎ IsCleared dec engine input
  unfolding run
  run-Silent w = run_parsed-Silent (parse_mode (setting engine.config "BFA_MODE" "")) w refl

  -- A run that made no call, or the one call for a test order.
  abbrev TestOnly : World fl ex → Outcome (Option (ExecutionResult fl)) × World fl ex → Type 0
  TestOnly w result =
      Silent w result
      ⊎ ((order : OrderRequest fl) × (answered : Bool) × (result.1.calls
            ≡ (test_order order, answered) ∷ w.calls))

  run_testnet-TestOnly :
      (intent : OrderIntent fl) (risk : RiskDecision) (w : World fl ex)
      → TestOnly w (run_testnet dec engine input intent risk w)
  unfolding run_testnet finish send test_request
  run_testnet-TestOnly intent risk w = inr (
    test_arguments fl engine.config intent,
    is_ok (ex.call (test_request fl engine.config intent) w.state).0,
    ground arith,
  )

  run_mode-TestOnly :
      (mode : Mode) (intent : OrderIntent fl) (risk : RiskDecision) (w : World fl ex)
      → mode ≢ live
      → TestOnly w (run_mode dec engine input mode intent risk w)
  unfolding run_mode with_client reject finish
  run_mode-TestOnly dry_run intent risk w h = inl refl
  run_mode-TestOnly testnet intent risk w h = ground (arith, run_testnet-TestOnly intent risk w)
  run_mode-TestOnly live intent risk w h = absurd (h refl)

  run_intent-TestOnly :
      (mode : Mode) (result : Option (OrderIntent fl) × RiskDecision) (w : World fl ex)
      → mode ≢ live
      → TestOnly w (run_intent dec engine input mode result w)
  unfolding run_intent run_gated reject finish
  run_intent-TestOnly mode (none, verdict) w h = inl (run_intent-Silent_absent mode verdict w)
  run_intent-TestOnly mode (some intent, verdict) w h =
      ground (arith, run_mode-TestOnly mode intent (gate engine input mode (some intent)) w h)

  run_built-TestOnly :
      (mode : Mode) (built : Option (Option (OrderIntent fl) × RiskDecision)) (w : World fl ex)
      → mode ≢ live
      → TestOnly w (run_built dec engine input mode built w)
  unfolding run_built
  run_built-TestOnly mode none w h = inl refl
  run_built-TestOnly mode (some result) w h = run_intent-TestOnly mode result w h

  run_parsed-TestOnly :
      (parsed : Option Mode) (w : World fl ex)
      → parsed ≢ some live
      → TestOnly w (run_parsed dec engine input parsed w)
  unfolding run_parsed
  run_parsed-TestOnly none w h = inl refl
  run_parsed-TestOnly (some mode) w h = run_built-TestOnly mode _ w (λ e. h (ap some e))

  -- A run in another mode than the live one, however the exchange behaves, makes at most one call,
  -- and that one is for a test order.
  pub run-TestOnly :
      (w : World fl ex)
      → parse_mode (setting engine.config "BFA_MODE" "") ≢ some live
      → TestOnly w (run dec engine input w)
  unfolding run
  run-TestOnly w h = run_parsed-TestOnly (parse_mode (setting engine.config "BFA_MODE" "")) w h
