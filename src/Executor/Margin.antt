-- ===== src/Executor/Margin.antt =====
-- src/bfa/execution/executor.py: `_check_live_available_balance`, `_ensure_live_margin` and
-- `_change_initial_leverage_with_fallback`.
use binance_future_agent.Base.{
  String, ◌<>◌, Bool, true, false, Option, none, some, List, [], ◌∷◌, ◌++◌, if◌then◌else◌,
  or_default,
}
use binance_future_agent.Base.Int.{ℤ, pos, leb_ℤ, ltb_ℤ, eqb_ℤ, max_ℤ}
use binance_future_agent.Base.Float.{Float}
use binance_future_agent.Base.Json.{Json, Items, Dict, get, float, show_int, put}
use binance_future_agent.Config.{AppConfig, binance_margin_type}
use binance_future_agent.Models.{OrderIntent, RiskDecision, estimated_initial_margin}
use binance_future_agent.Risk.{rejected}
use binance_future_agent.Executor.Client.{
  SignedError, Outcome, ok, err, Exchange, Action, account, change_margin_type,
  change_initial_leverage, send, pure, raise, attempt, ◌>>=◌,
}
use binance_future_agent.Executor.Orders.{
  is_invalid_leverage_error, is_margin_type_unchanged, error_payload, int_json,
}

-- `{max(int(value), 1) for value in anchors if int(value) <= requested}`, sorted downwards.
unfoldable pub insert_leverage : ℤ → List ℤ → List ℤ
insert_leverage n [] = n ∷ []
insert_leverage n (m ∷ ms) =
    let rest = insert_leverage n ms in
    if eqb_ℤ n m then m ∷ ms else if ltb_ℤ m n then n ∷ m ∷ ms else m ∷ rest

unfoldable pub collect_leverages : ℤ → List ℤ → List ℤ
collect_leverages requested [] = []
collect_leverages requested (a ∷ anchors) =
    let rest = collect_leverages requested anchors in
    if leb_ℤ a requested then insert_leverage (max_ℤ a (pos 1)) rest else rest

abbrev pub lower_anchors : List ℤ
lower_anchors =
    pos 25 ∷ pos 20 ∷ pos 15 ∷ pos 12 ∷ pos 10 ∷ pos 8 ∷ pos 5 ∷ pos 3 ∷ pos 2 ∷ pos 1 ∷ []

-- `_leverage_fallback_sequence`
unfoldable pub leverage_fallback_sequence : ℤ → List ℤ
unfolding insert_leverage collect_leverages
leverage_fallback_sequence requested = collect_leverages requested (requested ∷ lower_anchors)

module _ (fl : Float) where
  -- `_effective_leverage_from_response`
  unfoldable pub effective_leverage : Dict fl → ℤ → ℤ
  effective_leverage response fallback =
      max_ℤ
        (elim (float (get response "leverage")) [
          | none ↦ fallback
          | some x ↦ or_default (fl.trunc x) fallback
        ])
        (pos 1)

  unfoldable pub snoc_item : Items fl → Json fl → Items fl
  snoc_item Items.nil v = Items.cons v Items.nil
  snoc_item (Items.cons u rest) v = Items.cons u (snoc_item rest v)

  -- The records of an attempt that was rejected, and of one that was accepted.
  abbrev rejected_attempt : ℤ → SignedError → Json fl
  rejected_attempt leverage e = Json.obj (
      Dict.field "leverage" (Json.int leverage) (
        Dict.field "status" (Json.str "rejected") (
          Dict.field "code" (int_json fl e.binance_code)
            (Dict.field "message" (Json.str e.binance_message) Dict.end))))

  abbrev accepted_attempt : ℤ → ℤ → Json fl
  accepted_attempt leverage effective = Json.obj (
      Dict.field "leverage" (Json.int leverage) (
        Dict.field "status" (Json.str "accepted")
          (Dict.field "effective_leverage" (Json.int effective) Dict.end)))

  abbrev leverage_report : ℤ → ℤ → Items fl → Dict fl → Dict fl
  leverage_report requested effective attempts response =
      Dict.field "requested_leverage" (Json.int requested) (
        Dict.field "effective_leverage" (Json.int effective) (
          Dict.field "attempts" (Json.arr attempts)
            (Dict.field "response" (Json.obj response) Dict.end)))

-- The error raised when there was no leverage to try.
abbrev no_leverage_error : SignedError
no_leverage_error = record {
  endpoint = "/fapi/v1/leverage";
  binance_code = none;
  binance_message = "unable to set leverage";
}

-- `exc.binance_code or "unknown"`: zero counts as missing.
abbrev code_text : Option ℤ → String
code_text none = "unknown"
code_text (some n) = if eqb_ℤ n (pos 0) then "unknown" else show_int n

module _ (fl : Float) where
  -- `MarginSetupResolution`; `downshifted` is the flag of that name in the response.
  pub record MarginSetup : Type 0 where
    pub intent : OrderIntent fl
    pub response : Dict fl
    pub downshifted : Bool

module _ {fl : Float} where
  -- The intent at another leverage than the one asked for.
  unfoldable pub with_leverage : OrderIntent fl → ℤ → OrderIntent fl
  with_leverage intent leverage = record intent {
    leverage = leverage;
    reason_codes =
        intent.reason_codes
        ++ (("exchange_leverage_downshifted:"
              <> (show_int intent.leverage <> ("_to_" <> show_int leverage)))
            ∷ []);
    metadata =
        put (put intent.metadata "requested_leverage" (Json.int intent.leverage))
          "exchange_effective_leverage" (Json.int leverage);
  }

  unfoldable pub margin_resolution : OrderIntent fl → Dict fl → ℤ × Dict fl → MarginSetup fl
  margin_resolution intent margin_reply (leverage, leverage_reply) =
      let response =
        Dict.field "margin_type" (Json.obj margin_reply)
          (Dict.field "leverage" (Json.obj leverage_reply) Dict.end) in
      if eqb_ℤ leverage intent.leverage
      then record { intent = intent; response = response; downshifted = false }
      else record {
        intent = with_leverage intent leverage;
        response = put response "leverage_downshifted" (Json.bool true);
        downshifted = true;
      }

  -- The verdict on the balance that the account reports.
  unfoldable pub balance_verdict : OrderIntent fl → Outcome (Dict fl) → RiskDecision
  balance_verdict intent (err e) =
      rejected (("account_balance_check_failed:" <> code_text e.binance_code) ∷ [])
  balance_verdict intent (ok reply) = elim (float (get reply "availableBalance")) [
    | none ↦ rejected ("account_available_balance_unknown" ∷ [])
    | some available ↦
        if fl.lt available (estimated_initial_margin fl intent)
        then record {
          accepted = false;
          reason_codes = "insufficient_available_balance" ∷ [];
          warnings =
              ("available_balance:" <> fl.show_places 8 available)
              ∷ ("required_initial_margin:"
                  <> fl.show_places 8 (estimated_initial_margin fl intent))
              ∷ [];
        }
        else record { accepted = true; reason_codes = "available_balance_ok" ∷ []; warnings = [] }
  ]

module _ {fl : Float} {ex : Exchange fl} where
  -- The loop of `_change_initial_leverage_with_fallback`, over the leverages left to try.
  unfoldable pub try_leverages :
      String → ℤ → List ℤ → Items fl → Option SignedError → Action fl ex (ℤ × Dict fl)
  unfolding snoc_item
  try_leverages symbol requested [] attempts last_error =
      raise (or_default last_error no_leverage_error)
  try_leverages symbol requested (leverage ∷ rest) attempts last_error =
      attempt (send (change_initial_leverage symbol leverage)) >>= λ reply. elim reply [
        | ok response ↦
            let effective = effective_leverage fl response leverage in
            let attempts' = snoc_item fl attempts (accepted_attempt fl leverage effective) in
            pure (effective, leverage_report fl requested effective attempts' response)
        | err e ↦
            let retry =
              try_leverages symbol requested rest
                (snoc_item fl attempts (rejected_attempt fl leverage e)) (some e) in
            if is_invalid_leverage_error e then retry else raise e
      ]

  unfoldable pub change_leverage : String → ℤ → Action fl ex (ℤ × Dict fl)
  change_leverage symbol leverage =
      let requested = max_ℤ leverage (pos 1) in
      try_leverages symbol requested (leverage_fallback_sequence requested) Items.nil none

  -- The reply to the change of the margin type, where the type may be set already.
  unfoldable pub set_margin_type : String → String → Action fl ex (Dict fl)
  set_margin_type symbol margin_type =
      attempt (send (change_margin_type symbol margin_type)) >>= λ reply. elim reply [
        | ok response ↦ pure response
        | err e ↦
            if is_margin_type_unchanged e
            then pure (Dict.field "status" (Json.str "already_configured") (error_payload fl e))
            else raise e
      ]

  -- `_ensure_live_margin`
  unfoldable pub ensure_live_margin : AppConfig → OrderIntent fl → Action fl ex (MarginSetup fl)
  ensure_live_margin config intent =
      set_margin_type intent.symbol (binance_margin_type config) >>= λ margin_reply.
      change_leverage intent.symbol intent.leverage >>= λ leverage_reply.
      pure (margin_resolution intent margin_reply leverage_reply)

  -- `_check_live_available_balance`
  unfoldable pub check_live_available_balance : OrderIntent fl → Action fl ex RiskDecision
  check_live_available_balance intent =
      attempt (send account) >>= λ reply. pure (balance_verdict intent reply)
