-- ===== src/Executor/Limit.antt =====
-- src/bfa/execution/executor.py: what became of a limit entry: `_resolve_limit_entry`,
-- `_cancel_unknown_limit_entry` and `_reconcile_unknown_limit_entry_from_position`. The documents
-- of replies that these return besides are left out of the model.
use binance_future_agent.Base.{
  ℕ, zero, suc, String, Bool, true, false, Option, none, some, List, [], ◌∷◌, ◌++◌, ◌==◌,
  if◌then◌else◌,
}
use binance_future_agent.Base.Float
use binance_future_agent.Base.Float.{Float}
use binance_future_agent.Base.Json.{Dict, get, float}
use binance_future_agent.Config.{AppConfig}
use binance_future_agent.Models.{OrderIntent}
use binance_future_agent.Executor.Client.{
  Outcome, ok, err, is_ok, Exchange, Action, query_order, cancel_order, position_risk, send, fetch,
  pure, attempt, ◌>>=◌,
}
use binance_future_agent.Executor.Orders.{
  order_status, is_closed_status, is_terminal_status, executed_quantity, first_of_two, nonzero,
  float_or, position_side,
}
use binance_future_agent.Executor.Reprice.{at_entry_price}
use binance_future_agent.Executor.Protect.{matches_position, position_amount, first_position}

module _ (fl : Float) where
  open fl use {F, mul, div, lt, le, lit}

  -- `a is not None and a > 0`, and the value then.
  abbrev positive : Option F → Option F
  positive none = none
  positive (some x) = if lt (lit 0 0) x then some x else none

  -- The quote of a filled order over its quantity, where both are positive.
  abbrev quoted_price : F → Option F → F → F
  quoted_price executed none default = default
  quoted_price executed (some quote) default =
      if lt (lit 0 0) executed then div quote executed else default

  -- `_average_fill_price`
  unfoldable pub average_fill_price : Dict fl → F → F
  average_fill_price payload default = elim (positive (float (get payload "avgPrice"))) [
    | some price ↦ price
    | none ↦
        quoted_price (executed_quantity fl payload)
          (positive (
            first_of_two fl (nonzero fl (float (get payload "cumQuote")))
              (float (get payload "cumQuoteQty"))))
          default
  ]

  -- `_intent_with_fill`
  unfoldable pub intent_with_fill : OrderIntent fl → Dict fl → OrderIntent fl
  intent_with_fill intent payload =
      let quantity = executed_quantity fl payload in
      let price = average_fill_price payload intent.entry_price in
      let filled =
        at_entry_price fl intent price quantity (mul quantity price)
          "micro_grid_fill_reanchored_protective_prices" "micro_grid_fill_reanchor"
          (λ report. report) in
      if le quantity (lit 0 0) then intent else filled

  -- `LimitEntryResolution`
  pub record LimitEntry : Type 0 where
    pub status : String
    pub submitted : Bool
    pub intent : OrderIntent fl

  -- The verdict on an order that was not seen filled while it was waited for, from its last reply
  -- and the quantity that was executed.
  unfoldable pub unfilled_verdict : OrderIntent fl → Dict fl → F → LimitEntry
  unfilled_verdict intent latest executed =
      if lt (lit 0 0) executed
      then record {
        status = "entry_order_partial_filled_protected";
        submitted = true;
        intent = intent_with_fill intent latest;
      }
      else record { status = "entry_order_expired_canceled"; submitted = false; intent = intent }

  -- The intent that a position which is there stands for.
  unfoldable pub reconciled_intent : OrderIntent fl → Dict fl → OrderIntent fl
  reconciled_intent intent position =
      let quantity = Float.abs fl (position_amount position) in
      let price = float_or fl (get position "entryPrice") intent.entry_price in
      record intent {
        quantity = quantity;
        notional_usdt = mul quantity price;
        entry_price = price;
        reason_codes = intent.reason_codes ++ ("limit_entry_reconciled_from_position" ∷ []);
      }

  -- The intent of the first position that matches, if the positions are known.
  unfoldable pub reconciled :
      OrderIntent fl → Option String → Outcome (List (Dict fl)) → Option (OrderIntent fl)
  reconciled intent side (err e) = none
  reconciled intent side (ok positions) =
      elim (first_position (matches_position intent side) positions) [
        | none ↦ none
        | some p ↦ some (reconciled_intent intent p)
      ]

module _ {fl : Float} {ex : Exchange fl} (config : AppConfig) (intent : OrderIntent fl) where
  -- The loop that waits for a terminal status, by how many more queries the time allows.
  unfoldable pub wait_for_terminal : String → ℕ → Dict fl → Action fl ex (Dict fl)
  wait_for_terminal id zero latest = pure latest
  wait_for_terminal id (suc polls) latest =
      let again = send (query_order intent.symbol id) >>= λ next. wait_for_terminal id polls next in
      if is_terminal_status fl (order_status fl latest) then pure latest else again

  -- An order that is open after the wait is cancelled, and queried again.
  unfoldable pub cancel_open_entry : String → Dict fl → Action fl ex (LimitEntry fl)
  cancel_open_entry id latest = send (cancel_order intent.symbol id) >>= λ cancelled.
      send (query_order intent.symbol id) >>= λ final. pure (
        unfilled_verdict fl intent final
          (Float.max fl (executed_quantity fl latest) (executed_quantity fl final)))

  unfoldable pub settle_limit_entry : String → Dict fl → Action fl ex (LimitEntry fl)
  settle_limit_entry id latest =
      let status = order_status fl latest in
      if status == "FILLED"
      then pure (record {
        status = "submitted";
        submitted = true;
        intent = intent_with_fill fl intent latest;
      })
      else if is_closed_status fl status
      then pure (unfilled_verdict fl intent latest (executed_quantity fl latest))
      else cancel_open_entry id latest

  -- The last reply of the wait.
  unfoldable pub wait_for_entry : ℕ → String → Action fl ex (Dict fl)
  wait_for_entry polls id = send (query_order intent.symbol id) >>= wait_for_terminal id polls

  -- `_resolve_limit_entry`
  unfoldable pub resolve_limit_entry : ℕ → String → Action fl ex (LimitEntry fl)
  resolve_limit_entry polls id = wait_for_entry polls id >>= settle_limit_entry id

  -- `_cancel_unknown_limit_entry`: the status that it returns.
  unfoldable pub cancel_unknown_entry : String → Action fl ex String
  cancel_unknown_entry id = attempt (send (cancel_order intent.symbol id)) >>= λ reply.
      pure (
        if is_ok reply then "entry_order_unknown_canceled" else "entry_order_unknown_cancel_failed")

  -- `_reconcile_unknown_limit_entry_from_position`
  unfoldable pub reconcile_unknown_entry : Action fl ex (Option (OrderIntent fl))
  reconcile_unknown_entry = attempt (fetch (position_risk intent.symbol)) >>= λ positions.
      pure (reconciled fl intent (position_side fl intent config) positions)
