-- ===== src/Watchdog/Check.antt =====
-- src/bfa/ops/pending_limit_watchdog.py: `_check_pending_intent` and the functions that end it.
-- Every call to the exchange stands under an `except BinanceSignedError`, so that a check always
-- returns an item.
use binance_future_agent.Base.{
  ℕ, String, Bool, true, false, ◌&&◌, Option, none, some, List, [], ◌∷◌, ◌++◌, dedupe,
  if◌then◌else◌, is_some, or_default,
}
use binance_future_agent.Base.Int.{pos}
use binance_future_agent.Base.Float.{Float}
use binance_future_agent.Base.Json.{Json, Dict, put}
use binance_future_agent.Config.{AppConfig}
use binance_future_agent.Models.{OrderIntent, RiskDecision}
use binance_future_agent.Executor.{
  Outcome, ok, err, Exchange, World, send, fetch, query_order, position_risk, position_side,
  order_status, executed_quantity, is_closed_status,
}
use binance_future_agent.Watchdog.Tables.{ResponseRow, Ledger, PendingOrder, persist_resolution}
use binance_future_agent.Watchdog.Backfill.{
  PositionCheck, position_check_failed, no_matching_position, position_found, active_from_query,
  position_check, both_kinds, Backfills, protective_complete, protection_reasons, find_existing,
  place_missing_protective_orders,
}

-- `PendingLimitWatchdogItem`
pub record WatchItem : Type 0 where
  pub intent_event_id : ℕ
  pub symbol : String
  pub status : String
  pub action : String
  pub reasons : List String
  pub client_order_id : Option String
  pub query_status : Option String
  pub position_side : Option String
  pub exchange_response_event_id : Option ℕ
  pub order_intent_event_id : Option ℕ

-- The exchange with the calls made, and the tables.
pub record Desk (fl : Float) (ex : Exchange fl) : Type 0 where
  pub world : World fl ex
  pub ledger : Ledger fl

abbrev decision : Bool → String → RiskDecision
decision accepted reason = record { accepted = accepted; reason_codes = reason ∷ []; warnings = [] }

abbrev observe_only : Bool → List String
observe_only execute = if execute then [] else "execution_disabled_observe_only" ∷ []

module _ {fl : Float} where
  open fl use {le, lit}

  abbrev answered : Outcome (Dict fl) → Option (Dict fl)
  answered (ok query) = some query
  answered (err e) = none

  -- An item of a pending order that was looked at only.
  unfoldable pub watched : PendingOrder fl → Option (Dict fl) → String → List String → WatchItem
  watched pending query status reasons = record {
    intent_event_id = pending.event_id;
    symbol = pending.intent.symbol;
    status = status;
    action = "watch";
    reasons = reasons;
    client_order_id = some pending.client_order_id;
    query_status = elim query [ none ↦ none | some q ↦ some (order_status fl q) ];
    position_side = none;
    exchange_response_event_id = none;
    order_intent_event_id = none;
  }

  -- The intent that a resolution persists: at the time of the check, with a reason and a note.
  unfoldable pub resolved_intent :
      PendingOrder fl → OrderIntent fl → String → String → OrderIntent fl
  resolved_intent pending intent checked_at reason = record intent {
    decided_at = checked_at;
    reason_codes = dedupe (intent.reason_codes ++ (reason ∷ []));
    metadata =
        put
          (put (put intent.metadata "pending_intent_event_id" (Json.int (pos pending.event_id)))
            "pending_client_order_id" (Json.str pending.client_order_id))
          "pending_watchdog_checked_at" (Json.str checked_at);
  }

  abbrev pub response_row : PendingOrder fl → String → ResponseRow
  response_row pending status = record {
    watchdog_status = some status;
    pending_intent_event_id = some pending.event_id;
  }

  -- Persists the end of a pending order with no position, and the item that tells it.
  unfoldable pub mark_resolved :
      PendingOrder fl
      → Option (Dict fl)
      → String
      → String
      → String
      → String
      → String
      → List String
      → Ledger fl
      → WatchItem × Ledger fl
  mark_resolved pending query checked_at reason intent_status watchdog_status status reasons
        ledger =
      let (ids, ledger') =
        persist_resolution (resolved_intent pending pending.intent checked_at reason) intent_status
          (response_row pending watchdog_status) (decision true reason) ledger in
      (
        record (watched pending query status reasons) {
          action = "mark_resolved";
          exchange_response_event_id = some ids.1;
          order_intent_event_id = some ids.0;
        },
        ledger',
      )

  -- `_persist_terminal_no_fill`
  unfoldable pub persist_terminal_no_fill :
      PendingOrder fl → Option (Dict fl) → String → Ledger fl → WatchItem × Ledger fl
  persist_terminal_no_fill pending query checked_at ledger =
      mark_resolved pending query checked_at "pending_limit_terminal_no_fill"
        "entry_order_expired_canceled" "terminal_no_fill" "terminal_no_fill"
        ("pending_limit_terminal_no_fill" ∷ []) ledger

  -- `_handle_filled_without_active_position`, with whether the position check found none.
  unfoldable pub handle_filled_without_active_position :
      PendingOrder fl → Option (Dict fl) → String → Bool → Bool → Ledger fl → WatchItem × Ledger fl
  handle_filled_without_active_position pending query checked_at execute false ledger = (
    watched pending query "filled_position_check_failed"
        ("pending_limit_filled" ∷ "active_position_check_failed" ∷ observe_only execute),
    ledger,
  )
  handle_filled_without_active_position pending query checked_at false true ledger = (
    watched pending query "filled_without_active_position"
        ("pending_limit_filled" ∷ "no_matching_active_position" ∷ observe_only false),
    ledger,
  )
  handle_filled_without_active_position pending query checked_at true true ledger =
      mark_resolved pending query checked_at "pending_limit_filled_no_active_position"
        "entry_order_filled_no_active_position" "filled_no_active_position"
        "filled_without_active_position"
        ("pending_limit_filled" ∷ "no_matching_active_position" ∷ []) ledger

  -- `_order_status(query) in _CLOSED_ORDER_STATUSES and _executed_quantity(query) <= 0`
  unfoldable pub is_terminal_no_fill : Option (Dict fl) → Bool
  is_terminal_no_fill none = false
  is_terminal_no_fill (some query) =
      is_closed_status fl (order_status fl query) && le (executed_quantity fl query) (lit 0 0)

  -- What becomes of a pending order that neither the query nor a position shows to be filled.
  unfoldable pub not_filled :
      PendingOrder fl → Option (Dict fl) → String → Bool → Ledger fl → WatchItem × Ledger fl
  not_filled pending query checked_at execute ledger =
      if is_terminal_no_fill query
      then if execute then persist_terminal_no_fill pending query checked_at ledger else (
        watched pending query "terminal_no_fill_pending"
            ("pending_limit_terminal_no_fill" ∷ "execution_disabled_observe_only" ∷ []),
        ledger,
      )
      else (watched pending query "still_pending" ("pending_limit_not_filled" ∷ []), ledger)

  -- The item of a pending order whose position was found.
  unfoldable pub position_item :
      AppConfig
      → PendingOrder fl
      → Option (Dict fl)
      → OrderIntent fl
      → String
      → String
      → List String
      → WatchItem
  position_item config pending query active status action reasons =
      record (watched pending query status reasons) {
        symbol = active.symbol;
        action = action;
        position_side = position_side fl active config;
      }

  -- The end of `_check_pending_intent`, from the closing orders that were placed on.
  unfoldable pub persist_protection :
      AppConfig
      → PendingOrder fl
      → Option (Dict fl)
      → String
      → OrderIntent fl
      → Backfills
      → Ledger fl
      → WatchItem × Ledger fl
  persist_protection config pending query checked_at active placed ledger =
      let complete = protective_complete placed in
      let reason =
        if complete
        then "pending_limit_watchdog_reconciled"
        else "pending_limit_watchdog_protection_failed" in
      let (ids, ledger') =
        persist_resolution
          (resolved_intent pending active checked_at "pending_limit_watchdog_reconciled")
          (if complete then "submitted" else "protective_order_failed_open")
          (response_row pending (if complete then "filled_protected" else "protection_failed"))
          (decision complete reason) ledger in
      let item =
        position_item config pending query active
          (if complete then "position_reconciled_protected" else "protection_failed")
          "place_protective_orders" ("pending_limit_filled" ∷ protection_reasons placed) in
      (
        record item { exchange_response_event_id = some ids.1; order_intent_event_id = some ids.0 },
        ledger',
      )

module _ {fl : Float} {ex : Exchange fl} where
  -- What becomes of a pending order whose position was found.
  unfoldable pub guard_position :
      AppConfig
      → PendingOrder fl
      → Option (Dict fl)
      → String
      → Bool
      → OrderIntent fl
      → Desk fl ex
      → WatchItem × Desk fl ex
  guard_position config pending query checked_at false active desk =
      let (kinds, w) = find_existing config active desk.world in
      let protected = both_kinds kinds in
      (
        position_item config pending query active
            (if protected then "filled_already_protected" else "filled_unprotected")
            (if protected then "watch" else "place_protective_orders_pending")
            ("pending_limit_filled"
              ∷ (if protected
                  then "protective_orders_already_present"
                  else "execution_disabled_observe_only")
              ∷ []),
        record desk { world = w },
      )
  guard_position config pending query checked_at true active desk =
      let (placed, w) = place_missing_protective_orders config active checked_at desk.world in
      let (item, ledger) =
        persist_protection config pending query checked_at active placed desk.ledger in
      (item, record { world = w; ledger = ledger })

  abbrev pub with_ledger : World fl ex → WatchItem × Ledger fl → WatchItem × Desk fl ex
  with_ledger w (item, ledger) = (item, record { world = w; ledger = ledger })

  -- The branches of `_check_pending_intent` after the check of the position; `filled` tells whether
  -- the query showed a fill.
  unfoldable pub after_position_check :
      AppConfig
      → PendingOrder fl
      → Option (Dict fl)
      → String
      → Bool
      → Bool
      → PositionCheck fl
      → Desk fl ex
      → WatchItem × Desk fl ex
  after_position_check config pending query checked_at execute filled (position_found active) desk =
      guard_position config pending query checked_at execute active desk
  after_position_check config pending query checked_at execute true no_matching_position desk =
      with_ledger desk.world
        (handle_filled_without_active_position pending query checked_at execute true desk.ledger)
  after_position_check config pending query checked_at execute true position_check_failed desk =
      with_ledger desk.world
        (handle_filled_without_active_position pending query checked_at execute false desk.ledger)
  after_position_check config pending query checked_at execute false no_matching_position desk =
      with_ledger desk.world (not_filled pending query checked_at execute desk.ledger)
  after_position_check config pending query checked_at execute false position_check_failed desk =
      with_ledger desk.world (not_filled pending query checked_at execute desk.ledger)

  -- `_check_pending_intent`
  unfoldable pub check_pending_intent :
      AppConfig → PendingOrder fl → String → Bool → Desk fl ex → WatchItem × Desk fl ex
  check_pending_intent config pending checked_at execute desk =
      let (reply, w1) =
        send (query_order pending.intent.symbol pending.client_order_id) desk.world in
      let query = answered reply in
      let active = active_from_query fl pending.intent query in
      let target = or_default active pending.intent in
      let (positions, w2) = fetch (position_risk target.symbol) w1 in
      after_position_check config pending query checked_at execute (is_some active)
        (position_check fl config target positions) (record desk { world = w2 })
