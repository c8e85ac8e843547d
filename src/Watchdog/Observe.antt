-- ===== src/Watchdog/Observe.antt =====
-- The watchdog without execution: it only reads.
use binance_future_agent.Base.{
  String, Bool, true, false, not, Option, none, some, List, [], ◌∷◌, ◌≡◌, refl, ◌∙◌, select, arith,
}
use binance_future_agent.Base.Int.{ℤ}
use binance_future_agent.Base.Float.{Float}
use binance_future_agent.Base.Json.{Dict}
use binance_future_agent.Config.{AppConfig}
use binance_future_agent.Models.{OrderIntent}
use binance_future_agent.Executor.{
  Request, query_order, position_risk, open_algo_orders, Exchange, World, send, fetch,
}
use binance_future_agent.Watchdog.Tables.{PendingOrder, load_pending}
use binance_future_agent.Watchdog.Backfill.{
  PositionCheck, position_check_failed, no_matching_position, position_found, find_existing,
}
use binance_future_agent.Watchdog.Check.{
  Desk, not_filled, handle_filled_without_active_position, guard_position, after_position_check,
  check_pending_intent,
}
use binance_future_agent.Watchdog.Report.{
  WatchReport, check_all, report_on, not_manual, first_items, at_least_zero,
  execute_pending_limit_watchdog, relabelled_report, unless_stopped, stopped, execution_enabled,
  build_report,
}

-- A call that changes nothing on the exchange.
abbrev pub is_read : {fl : Float} → Request fl → Bool
is_read (query_order _ _) = true
is_read (position_risk _) = true
is_read (open_algo_orders _) = true
is_read _ = false

module _ {fl : Float} {ex : Exchange fl} where
  -- The calls that are no reads.
  abbrev pub orders_sent : World fl ex → List (Request fl × Bool)
  orders_sent w = select (λ c. not (is_read c.0)) w.calls

  -- No further order was sent, and the tables are as they were.
  abbrev pub IsQuiet : Desk fl ex → Desk fl ex → Type 0
  IsQuiet before after =
      (orders_sent after.world ≡ orders_sent before.world) × (after.ledger ≡ before.ledger)

  guard-IsQuiet :
      (config : AppConfig) (pending : PendingOrder fl) (query : Option (Dict fl))
      (checked_at : String)
      → (active : OrderIntent fl) (desk : Desk fl ex)
      → IsQuiet desk (guard_position config pending query checked_at false active desk).1
  unfolding guard_position find_existing fetch select
  guard-IsQuiet config pending query checked_at active desk = (refl, refl)

  without_position-IsQuiet :
      (pending : PendingOrder fl) (query : Option (Dict fl)) (checked_at : String)
      (none_found : Bool)
      → (desk : Desk fl ex)
      → (handle_filled_without_active_position pending query checked_at false none_found
          desk.ledger).1
        ≡ desk.ledger
  unfolding handle_filled_without_active_position
  without_position-IsQuiet pending query checked_at true desk = refl
  without_position-IsQuiet pending query checked_at false desk = refl

  not_filled-IsQuiet :
      (pending : PendingOrder fl) (query : Option (Dict fl)) (checked_at : String)
      (desk : Desk fl ex)
      → (not_filled pending query checked_at false desk.ledger).1 ≡ desk.ledger
  unfolding not_filled
  not_filled-IsQuiet pending query checked_at desk = ground arith

  after-IsQuiet :
      (config : AppConfig) (pending : PendingOrder fl) (query : Option (Dict fl))
      (checked_at : String)
      → (filled : Bool) (found : PositionCheck fl) (desk : Desk fl ex)
      → IsQuiet desk
          (after_position_check config pending query checked_at false filled found desk).1
  unfolding after_position_check
  after-IsQuiet config pending query checked_at filled (position_found active) desk =
      guard-IsQuiet config pending query checked_at active desk
  after-IsQuiet config pending query checked_at true no_matching_position desk =
      (refl, without_position-IsQuiet pending query checked_at true desk)
  after-IsQuiet config pending query checked_at true position_check_failed desk =
      (refl, without_position-IsQuiet pending query checked_at false desk)
  after-IsQuiet config pending query checked_at false no_matching_position desk =
      (refl, not_filled-IsQuiet pending query checked_at desk)
  after-IsQuiet config pending query checked_at false position_check_failed desk =
      (refl, not_filled-IsQuiet pending query checked_at desk)

  check-IsQuiet :
      (config : AppConfig) (pending : PendingOrder fl) (checked_at : String) (desk : Desk fl ex)
      → IsQuiet desk (check_pending_intent config pending checked_at false desk).1
  unfolding check_pending_intent send fetch select
  check-IsQuiet config pending checked_at desk = after-IsQuiet config pending _ checked_at _ _ _

  check_all-IsQuiet :
      (config : AppConfig) (pending : List (PendingOrder fl)) (checked_at : String)
      (desk : Desk fl ex)
      → IsQuiet desk (check_all config pending checked_at false desk).1
  unfolding check_all
  check_all-IsQuiet config [] checked_at desk = (refl, refl)
  check_all-IsQuiet config (p ∷ ps) checked_at desk =
      let desk' = (check_pending_intent config p checked_at false desk).1 in
      let here = check-IsQuiet config p checked_at desk in
      let later = check_all-IsQuiet config ps checked_at desk' in
      (later.0 ∙ here.0, later.1 ∙ here.1)

  -- A report that says that nothing was executed, and that left all as it was; or none.
  abbrev pub IsObservation : Desk fl ex → Option (WatchReport × Desk fl ex) → Type 0
  IsObservation desk none = Unit
  IsObservation desk (some (report, after)) =
      (report.execution_enabled ≡ false) × IsQuiet desk after

  execute-IsObservation :
      (config : AppConfig) (checked_at : String) (max_items : ℤ) (desk : Desk fl ex)
      → IsObservation desk (execute_pending_limit_watchdog config checked_at max_items false desk)
  unfolding execute_pending_limit_watchdog report_on
  execute-IsObservation config checked_at max_items desk =
      elim (load_pending desk.ledger)
        as (λ loaded. IsObservation desk (elim loaded [
          | none ↦ none
          | some pending ↦
              some (report_on config (not_manual config pending) checked_at max_items false desk)
        ])) [
          | none ↦ tt
          | some pending ↦ (
            refl,
            check_all-IsQuiet config
                (first_items (at_least_zero max_items) (not_manual config pending)) checked_at desk,
          )
        ]

  relabelled-IsObservation :
      (execute : Bool) (desk : Desk fl ex) (made : Option (WatchReport × Desk fl ex))
      → IsObservation desk made
      → IsObservation desk (relabelled_report execute false made)
  unfolding relabelled_report
  relabelled-IsObservation execute desk none h = tt
  relabelled-IsObservation execute desk (some (report, after)) h = (refl, h.1)

  gate-IsObservation :
      (closed : Bool) (status reason : String) (desk : Desk fl ex)
      → (made : Option (WatchReport × Desk fl ex)) → IsObservation desk made
      → IsObservation desk (unless_stopped closed status reason desk made)
  unfolding unless_stopped stopped
  gate-IsObservation true status reason desk made h = (refl, (refl, refl))
  gate-IsObservation false status reason desk made h = h

  -- Where execution is not both asked for and enabled by the configuration, a report sends no order,
  -- leaves the tables as they were, and says that nothing was executed.
  pub build_report-IsObservation :
      (config : AppConfig) (has_client : Bool) (checked_at : String) (max_items : Option ℤ)
      → (execute : Bool) (desk : Desk fl ex) → execution_enabled config execute ≡ false
      → IsObservation desk (build_report config has_client checked_at max_items execute desk)
  unfolding build_report
  build_report-IsObservation config has_client checked_at max_items execute desk off = rw off (
      gate-IsObservation _ _ _ desk _ (
        gate-IsObservation _ _ _ desk _ (
          gate-IsObservation _ _ _ desk _ (
            relabelled-IsObservation execute desk _
              (execute-IsObservation config checked_at _ desk)))))
