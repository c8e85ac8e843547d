-- ===== src/Watchdog/Report.antt =====
-- src/bfa/ops/pending_limit_watchdog.py: `execute_pending_limit_watchdog` and
-- `build_pending_limit_watchdog_report`. Nothing stands for a report that is not made, because an
-- intent could not be read.
use binance_future_agent.Base.{
  ℕ, zero, suc, String, Bool, false, not, ◌&&◌, ◌||◌, Option, none, some, List, [], ◌∷◌, ◌++◌, any,
  contains, select, dedupe, count, length, ◌==◌, if◌then◌else◌, or_default,
}
use binance_future_agent.Base.Int.{ℤ, pos, negsuc, ltb_ℤ}
use binance_future_agent.Base.Float.{Float}
use binance_future_agent.Base.Text.{upper, parse_int}
use binance_future_agent.Base.Json.{is_yes}
use binance_future_agent.Config.{AppConfig, setting, setting_list}
use binance_future_agent.Executor.{Exchange}
use binance_future_agent.Watchdog.Tables.{PendingOrder, load_pending}
use binance_future_agent.Watchdog.Check.{WatchItem, Desk, check_pending_intent}

-- `PendingLimitWatchdogReport`
pub record WatchReport : Type 0 where
  pub status : String
  pub execution_enabled : Bool
  pub reasons : List String
  pub pending_count : ℕ
  pub checked_count : ℕ
  pub protected_count : ℕ
  pub items : List WatchItem

-- `status in {item.status for item in items}`
unfoldable pub has_status : List WatchItem → String → Bool
has_status items status = any (λ item. item.status == status) items

-- `_report_status`
unfoldable pub report_status : List WatchItem → ℕ → Bool → String
report_status items zero execute = "pending_limit_watchdog_empty"
report_status items (suc n) execute =
    if has_status items "protection_failed"
    then "pending_limit_watchdog_protection_failed"
    else if has_status items "filled_unprotected"
    then "pending_limit_watchdog_action_ready"
    else if has_status items "filled_position_check_failed"
    then "pending_limit_watchdog_check_failed"
    else if has_status items "filled_protected" || has_status items "position_reconciled_protected"
    then "pending_limit_watchdog_protected"
    else if not execute && has_status items "filled_already_protected"
    then "pending_limit_watchdog_observing"
    else "pending_limit_watchdog_checked"

-- `item.status in {"filled_protected", "position_reconciled_protected"}`
unfoldable pub is_protected_item : WatchItem → Bool
is_protected_item item =
    item.status == "filled_protected" || item.status == "position_reconciled_protected"

-- `values[: max(0, n)]`
unfoldable pub first_items : {A : Type 0} → ℕ → List A → List A
first_items zero xs = []
first_items (suc n) [] = []
first_items (suc n) (x ∷ xs) = x ∷ first_items n xs

unfoldable pub at_least_zero : ℤ → ℕ
at_least_zero (pos n) = n
at_least_zero (negsuc n) = 0

-- `_int_or_default`
unfoldable pub int_or_default : String → ℤ → ℤ
int_or_default value default = elim (parse_int value) [
  | none ↦ default
  | some n ↦ if ltb_ℤ (pos 0) n then n else default
]

-- The report where a gate of `build_pending_limit_watchdog_report` stops it.
unfoldable pub stopped : String → String → WatchReport
stopped status reason = record {
  status = status;
  execution_enabled = false;
  reasons = reason ∷ [];
  pending_count = 0;
  checked_count = 0;
  protected_count = 0;
  items = [];
}

-- `BFA_PENDING_LIMIT_WATCHDOG_EXECUTE_ENABLED` where the caller asks for execution.
unfoldable pub execution_enabled : AppConfig → Bool → Bool
execution_enabled config execute =
    execute && is_yes (setting config "BFA_PENDING_LIMIT_WATCHDOG_EXECUTE_ENABLED" "false")

abbrev relabelled : Bool → Bool → WatchReport → WatchReport
relabelled execute enabled report = record report {
  execution_enabled = enabled;
  reasons = dedupe (
      (if execute && not enabled then "execution_not_enabled_by_config" ∷ [] else [])
      ++ report.reasons);
}

module _ {fl : Float} where
  -- The pending orders of symbols that no one holds by hand.
  unfoldable pub not_manual : AppConfig → List (PendingOrder fl) → List (PendingOrder fl)
  not_manual config = select (λ pending.
      not (
        contains (setting_list config "BFA_MANUAL_POSITION_SYMBOLS") (upper pending.intent.symbol)))

module _ {fl : Float} {ex : Exchange fl} where
  -- The loop over the pending orders, in turn.
  unfoldable pub check_all :
      AppConfig → List (PendingOrder fl) → String → Bool → Desk fl ex → List WatchItem × Desk fl ex
  check_all config [] checked_at execute desk = ([], desk)
  check_all config (pending ∷ rest) checked_at execute desk =
      let (item, desk') = check_pending_intent config pending checked_at execute desk in
      let (items, desk'') = check_all config rest checked_at execute desk' in (item ∷ items, desk'')

  -- The report on the pending orders.
  unfoldable pub report_on :
      AppConfig → List (PendingOrder fl) → String → ℤ → Bool → Desk fl ex → WatchReport × Desk fl ex
  report_on config pending checked_at max_items execute desk =
      let (items, desk') =
        check_all config (first_items (at_least_zero max_items) pending) checked_at execute desk in
      (
        record {
          status = report_status items (length pending) execute;
          execution_enabled = execute;
          reasons = if execute then [] else "execution_disabled_observe_only" ∷ [];
          pending_count = length pending;
          checked_count = length items;
          protected_count = count is_protected_item items;
          items = items;
        },
        desk',
      )

  -- `execute_pending_limit_watchdog`
  unfoldable pub execute_pending_limit_watchdog :
      AppConfig → String → ℤ → Bool → Desk fl ex → Option (WatchReport × Desk fl ex)
  execute_pending_limit_watchdog config checked_at max_items execute desk =
      elim (load_pending desk.ledger) [
        | none ↦ none
        | some pending ↦
            some (report_on config (not_manual config pending) checked_at max_items execute desk)
      ]

  -- An early return of `build_pending_limit_watchdog_report`, before what it goes on with.
  unfoldable pub unless_stopped :
      Bool
      → String
      → String
      → Desk fl ex
      → Option (WatchReport × Desk fl ex)
      → Option (WatchReport × Desk fl ex)
  unless_stopped closed status reason desk made =
      if closed then some (stopped status reason, desk) else made

  -- The report of `build_pending_limit_watchdog_report` from the one of the execution.
  unfoldable pub relabelled_report :
      Bool → Bool → Option (WatchReport × Desk fl ex) → Option (WatchReport × Desk fl ex)
  relabelled_report execute enabled none = none
  relabelled_report execute enabled (some (report, desk)) =
      some (relabelled execute enabled report, desk)

  -- `build_pending_limit_watchdog_report`, with whether there is a client.
  unfoldable pub build_report :
      AppConfig → Bool → String → Option ℤ → Bool → Desk fl ex → Option (WatchReport × Desk fl ex)
  build_report config has_client checked_at max_items execute desk =
      let mode = setting config "BFA_MODE" "" in
      let enabled = execution_enabled config execute in
      let limit =
        or_default max_items
          (int_or_default (setting config "BFA_PENDING_LIMIT_WATCHDOG_MAX_ITEMS" "10") (pos 10)) in
      unless_stopped (not (mode == "live" || mode == "testnet")) "pending_limit_watchdog_blocked"
        "live_or_testnet_mode_required" desk
        (unless_stopped (not (is_yes (setting config "BFA_PENDING_LIMIT_WATCHDOG_ENABLED" "true")))
          "pending_limit_watchdog_disabled" "pending_limit_watchdog_disabled" desk
          (unless_stopped (not has_client) "pending_limit_watchdog_blocked"
            "signed_client_unavailable" desk
            (relabelled_report execute enabled
              (execute_pending_limit_watchdog config checked_at limit enabled desk))))
