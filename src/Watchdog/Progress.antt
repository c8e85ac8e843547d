-- ===== src/Watchdog/Progress.antt =====
-- What the watchdog leaves pending.
use binance_future_agent.Base.{
  suc, String, Bool, true, false, not, ◌&&◌, ◌||◌, Option, some, List, [], ◌∷◌, ◌≡◌, refl, sym, ap,
  ◌∙◌, select, contains, nat_eq, if◌then◌else◌, ◌==◌, length, Bool-cases, inl, inr,
}
use binance_future_agent.Base.Int.{ℤ}
use binance_future_agent.Base.Float.{Float}
use binance_future_agent.Base.Json.{Dict}
use binance_future_agent.Config.{AppConfig}
use binance_future_agent.Models.{OrderIntent, RiskDecision}
use binance_future_agent.Executor.{Exchange}
use binance_future_agent.Watchdog.Tables.{
  ResponseRow, Ledger, PendingOrder, settles, names, load_pending, persist_response,
  persist_resolution,
}
use binance_future_agent.Watchdog.Backfill.{
  both_kinds, find_existing, Backfills, protective_complete, PositionCheck, position_check_failed,
  no_matching_position, position_found,
}
use binance_future_agent.Watchdog.Check.{
  WatchItem, Desk, watched, response_row, mark_resolved, persist_terminal_no_fill,
  handle_filled_without_active_position, not_filled, is_terminal_no_fill, position_item,
  persist_protection, guard_position, after_position_check, check_pending_intent,
}
use binance_future_agent.Watchdog.Report.{
  WatchReport, check_all, first_items, at_least_zero, not_manual, report_on,
  execute_pending_limit_watchdog,
}
use binance_future_agent.Watchdog.Resolved.{
  unsettled, load-persist_intent, pending-persist_response,
}

-- An item that settles its pending order.
abbrev pub is_settled : WatchItem → Bool
is_settled item = item.action == "mark_resolved" || item.status == "position_reconciled_protected"

-- The items of an observed position settle nothing.
observed_open :
    (protected : Bool)
    → ((if protected then "watch" else "place_protective_orders_pending") == "mark_resolved"
        || (if protected then "filled_already_protected" else "filled_unprotected")
          == "position_reconciled_protected")
      ≡ false
unfolding ◌==◌
observed_open true = refl
observed_open false = refl

module _ {fl : Float} where
  -- The pending orders but those of a settled item.
  abbrev pub others : WatchItem → List (PendingOrder fl) → List (PendingOrder fl)
  others item = select (λ p. not (is_settled item && nat_eq item.intent_event_id p.event_id))

  abbrev LeavesPending : List (PendingOrder fl) → WatchItem × Ledger fl → Type 0
  LeavesPending ps (item, ledger) = load_pending ledger ≡ some (others item ps)

  select_none :
      (test : PendingOrder fl → Bool) (ps : List (PendingOrder fl))
      → select (λ p. not (false && test p)) ps ≡ ps
  unfolding select
  select_none test [] = refl
  select_none test (p ∷ ps) = ap (p ∷◌) (select_none test ps)

  -- An item that settles nothing, with the tables as they were.
  unsettled-LeavesPending :
      (item : WatchItem) (ledger : Ledger fl) (ps : List (PendingOrder fl))
      → is_settled item ≡ false
      → load_pending ledger ≡ some ps
      → LeavesPending ps (item, ledger)
  unsettled-LeavesPending item ledger ps open_item loaded =
      rw open_item
        (loaded ∙ ap some (sym (select_none (λ p. nat_eq item.intent_event_id p.event_id) ps)))

  load-persist_resolution :
      (intent : OrderIntent fl) (status : String) (row : ResponseRow) (risk : RiskDecision)
      → (ledger : Ledger fl) (ps : List (PendingOrder fl))
      → (status == "entry_order_pending") ≡ false
      → load_pending ledger ≡ some ps
      → load_pending (persist_resolution intent status row risk ledger).1 ≡ some (unsettled row ps)
  unfolding persist_resolution persist_response load_pending
  load-persist_resolution intent status row risk ledger ps other loaded =
      pending-persist_response row _ _ _ ps
        (load-persist_intent intent status risk ledger other ∙ loaded)

  terminal-LeavesPending :
      (pending : PendingOrder fl) (query : Option (Dict fl)) (checked_at : String)
      → (ledger : Ledger fl) (ps : List (PendingOrder fl)) → load_pending ledger ≡ some ps
      → LeavesPending ps (persist_terminal_no_fill pending query checked_at ledger)
  unfolding persist_terminal_no_fill mark_resolved watched settles names contains ◌==◌
  terminal-LeavesPending pending query checked_at ledger ps loaded =
      load-persist_resolution _ _ (response_row pending "terminal_no_fill") _ ledger ps refl loaded

  without_position-LeavesPending :
      (pending : PendingOrder fl) (query : Option (Dict fl)) (checked_at : String)
      → (execute none_found : Bool) (ledger : Ledger fl) (ps : List (PendingOrder fl))
      → load_pending ledger ≡ some ps
      → LeavesPending ps
          (handle_filled_without_active_position pending query checked_at execute none_found ledger)
  unfolding handle_filled_without_active_position mark_resolved watched settles names contains ◌==◌
  without_position-LeavesPending pending query checked_at execute false ledger ps loaded =
      unsettled-LeavesPending
        (handle_filled_without_active_position pending query checked_at execute false ledger).0
        ledger ps refl loaded
  without_position-LeavesPending pending query checked_at false true ledger ps loaded =
      unsettled-LeavesPending
        (handle_filled_without_active_position pending query checked_at false true ledger).0 ledger
        ps refl loaded
  without_position-LeavesPending pending query checked_at true true ledger ps loaded =
      load-persist_resolution _ _ (response_row pending "filled_no_active_position") _ ledger ps
        refl loaded

  not_filled-LeavesPending :
      (pending : PendingOrder fl) (query : Option (Dict fl)) (checked_at : String)
      → (execute : Bool) (ledger : Ledger fl) (ps : List (PendingOrder fl))
      → load_pending ledger ≡ some ps
      → LeavesPending ps (not_filled pending query checked_at execute ledger)
  unfolding not_filled watched ◌==◌
  not_filled-LeavesPending pending query checked_at execute ledger ps loaded =
      elim (Bool-cases (is_terminal_no_fill query)) [
        | inl ended ↦
            elim execute as (λ e. LeavesPending ps (not_filled pending query checked_at e ledger)) [
              | true ↦ rw ended (terminal-LeavesPending pending query checked_at ledger ps loaded)
              | false ↦ rw ended (
                  unsettled-LeavesPending
                    (watched pending query "terminal_no_fill_pending"
                      ("pending_limit_terminal_no_fill" ∷ "execution_disabled_observe_only" ∷ []))
                    ledger ps refl loaded)
            ]
        | inr still ↦ rw still (
            unsettled-LeavesPending
              (watched pending query "still_pending" ("pending_limit_not_filled" ∷ [])) ledger ps
              refl loaded)
      ]

  protection-LeavesPending :
      (config : AppConfig) (pending : PendingOrder fl) (query : Option (Dict fl))
      (checked_at : String)
      → (active : OrderIntent fl) (made : Backfills) (ledger : Ledger fl)
        (ps : List (PendingOrder fl))
      → load_pending ledger ≡ some ps
      → LeavesPending ps (persist_protection config pending query checked_at active made ledger)
  unfolding persist_protection position_item watched settles names contains ◌==◌
  protection-LeavesPending config pending query checked_at active made ledger ps loaded =
      elim (Bool-cases (protective_complete made)) [
        | inl complete ↦ rw complete (
            load-persist_resolution _ _ (response_row pending "filled_protected") _ ledger ps refl
              loaded)
        | inr failed ↦ rw failed (
            load-persist_resolution _ _ (response_row pending "protection_failed") _ ledger ps refl
              loaded)
      ]

  -- What is left pending after all items, each taking out the order that it settles.
  abbrev pub left_of : List WatchItem → List (PendingOrder fl) → List (PendingOrder fl)
  left_of [] ps = ps
  left_of (item ∷ items) ps = left_of items (others item ps)

module _ {fl : Float} {ex : Exchange fl} where
  abbrev Leaves : List (PendingOrder fl) → WatchItem × Desk fl ex → Type 0
  Leaves ps (item, desk) = load_pending desk.ledger ≡ some (others item ps)

  guard-Leaves :
      (config : AppConfig) (pending : PendingOrder fl) (query : Option (Dict fl))
      (checked_at : String)
      → (execute : Bool) (active : OrderIntent fl) (desk : Desk fl ex) (ps : List (PendingOrder fl))
      → load_pending desk.ledger ≡ some ps
      → Leaves ps (guard_position config pending query checked_at execute active desk)
  unfolding guard_position position_item watched ◌==◌
  guard-Leaves config pending query checked_at true active desk ps loaded =
      protection-LeavesPending config pending query checked_at active _ desk.ledger ps loaded
  guard-Leaves config pending query checked_at false active desk ps loaded =
      unsettled-LeavesPending (guard_position config pending query checked_at false active desk).0
        desk.ledger ps (observed_open (both_kinds (find_existing config active desk.world).0))
        loaded

  after-Leaves :
      (config : AppConfig) (pending : PendingOrder fl) (query : Option (Dict fl))
      (checked_at : String)
      → (execute filled : Bool) (found : PositionCheck fl) (desk : Desk fl ex)
      → (ps : List (PendingOrder fl)) → load_pending desk.ledger ≡ some ps
      → Leaves ps (after_position_check config pending query checked_at execute filled found desk)
  unfolding after_position_check
  after-Leaves config pending query checked_at execute filled (position_found active) desk ps
        loaded =
      guard-Leaves config pending query checked_at execute active desk ps loaded
  after-Leaves config pending query checked_at execute true no_matching_position desk ps loaded =
      without_position-LeavesPending pending query checked_at execute true desk.ledger ps loaded
  after-Leaves config pending query checked_at execute true position_check_failed desk ps loaded =
      without_position-LeavesPending pending query checked_at execute false desk.ledger ps loaded
  after-Leaves config pending query checked_at execute false no_matching_position desk ps loaded =
      not_filled-LeavesPending pending query checked_at execute desk.ledger ps loaded
  after-Leaves config pending query checked_at execute false position_check_failed desk ps loaded =
      not_filled-LeavesPending pending query checked_at execute desk.ledger ps loaded

  check-Leaves :
      (config : AppConfig) (pending : PendingOrder fl) (checked_at : String) (execute : Bool)
      → (desk : Desk fl ex) (ps : List (PendingOrder fl)) → load_pending desk.ledger ≡ some ps
      → Leaves ps (check_pending_intent config pending checked_at execute desk)
  unfolding check_pending_intent
  check-Leaves config pending checked_at execute desk ps loaded =
      after-Leaves config pending _ checked_at execute _ _ _ ps loaded

  check_all-leaves :
      (config : AppConfig) (pending : List (PendingOrder fl)) (checked_at : String) (execute : Bool)
      → (desk : Desk fl ex) (ps : List (PendingOrder fl)) → load_pending desk.ledger ≡ some ps
      → (length (check_all config pending checked_at execute desk).0 ≡ length pending)
        × (load_pending (check_all config pending checked_at execute desk).1.ledger
            ≡ some (left_of (check_all config pending checked_at execute desk).0 ps))
  unfolding check_all
  check_all-leaves config [] checked_at execute desk ps loaded = (refl, loaded)
  check_all-leaves config (p ∷ rest) checked_at execute desk ps loaded =
      let (item, desk') = check_pending_intent config p checked_at execute desk in
      let later =
        check_all-leaves config rest checked_at execute desk' (others item ps)
          (check-Leaves config p checked_at execute desk ps loaded) in
      (ap suc later.0, later.1)

  -- Where the pending orders can be read, the watchdog returns a report, and what is pending then is
  -- what was, in the same order, less the orders that the items of the report settle.
  pub execute-leaves :
      (config : AppConfig) (checked_at : String) (max_items : ℤ) (execute : Bool)
      → (desk : Desk fl ex) (ps : List (PendingOrder fl)) → load_pending desk.ledger ≡ some ps
      → (made : WatchReport × Desk fl ex) × (execute_pending_limit_watchdog config checked_at
            max_items execute desk
          ≡ some made)
        × (load_pending made.1.ledger ≡ some (left_of made.0.items ps))
        × (made.0.checked_count
            ≡ length (first_items (at_least_zero max_items) (not_manual config ps)))
  unfolding execute_pending_limit_watchdog report_on
  execute-leaves config checked_at max_items execute desk ps loaded =
      let done =
        check_all-leaves config (first_items (at_least_zero max_items) (not_manual config ps))
          checked_at execute desk ps loaded in
      (
        report_on config (not_manual config ps) checked_at max_items execute desk,
        rw (loaded, execute_pending_limit_watchdog) refl,
        done.1,
        done.0,
      )
