-- ===== src/Executor/Entered.antt =====
-- src/bfa/execution/executor.py: how a run ends, `_finish`, and what `ExecutionEngine.run` does from
-- the accepted entry order on.
use binance_future_agent.Base.{
  ℕ, String, Bool, true, false, Option, none, some, List, [], ◌∷◌, ◌++◌, if◌then◌else◌,
}
use binance_future_agent.Base.Float.{Float}
use binance_future_agent.Config.{AppConfig, protective_orders_required}
use binance_future_agent.Models.{
  DecisionValidationResult, RiskLimits, OrderIntent, RiskState, RiskDecision,
}
use binance_future_agent.Base.Json.{Dict}
use binance_future_agent.Filters.{SymbolExecutionFilters}
use binance_future_agent.Executor.Client.{
  SignedError, Outcome, ok, err, Exchange, Action, Request, OrderRequest, Artifact, order_intent,
  exchange_response, test_order, pure, attempt, ◌>>=◌,
}
use binance_future_agent.Executor.Orders.{
  is_limit_order, entry_order_price, order_time_in_force, position_side,
  is_existing_close_position_error,
}
use binance_future_agent.Executor.Protect.{
  Resolution, no_matching_position, existing_present, fallback_submitted, fallback_stop_submitted,
  emergency_closed, emergency_close_failed,
}
use binance_future_agent.Executor.Resolve.{
  place_protective_orders, replace_conflicting_orders, resolve_protective_failure,
}
use binance_future_agent.Executor.Entry.{EntrySubmission}
use binance_future_agent.Executor.Limit.{
  LimitEntry, resolve_limit_entry, cancel_unknown_entry, reconcile_unknown_entry,
}

module _ (fl : Float) where
  -- `ExecutionEngine`, with `risk_limits` as the engine settles them: whether it has a signed
  -- client and a store, which files exist, and how many times the wait for a limit entry lets it
  -- query the order again.
  pub record Engine : Type 0 where
    pub config : AppConfig
    pub limits : RiskLimits fl
    pub has_client : Bool
    pub has_store : Bool
    pub exists : String → Bool
    pub polls : ℕ

  -- The arguments of `run`, with their defaults settled.
  pub record RunInput : Type 0 where
    pub symbol : String
    pub validation : DecisionValidationResult fl
    pub decided_at : String
    pub risk_state : RiskState fl
    pub filters : Option SymbolExecutionFilters
    pub now : String

  -- `ExecutionResult`, without the documents.
  pub record ExecutionResult : Type 0 where
    pub status : String
    pub submitted : Bool
    pub intent : Option (OrderIntent fl)
    pub risk : RiskDecision

  -- What `_finish` persists, the latest first.
  unfoldable pub artifacts :
      Bool → String → Option (OrderIntent fl) → RiskDecision → Option String → List (Artifact fl)
  artifacts true status (some intent) risk none = order_intent status intent risk ∷ []
  artifacts true status (some intent) risk (some type) =
      exchange_response type intent ∷ order_intent status intent risk ∷ []
  artifacts has_store status intent risk type = []

  -- The arguments of the test order, which the exchange only checks; `run` leaves the reduce-only flag and
  -- the identifier to their defaults.
  unfoldable pub test_arguments : AppConfig → OrderIntent fl → OrderRequest fl
  test_arguments config intent = record {
    symbol = intent.symbol;
    side = intent.side;
    order_type = intent.order_type;
    quantity = intent.quantity;
    price = entry_order_price fl intent;
    time_in_force = order_time_in_force fl intent;
    reduce_only = false;
    position_side = position_side fl intent config;
    client_order_id = "";
  }

  unfoldable pub test_request : AppConfig → OrderIntent fl → Request fl
  test_request config intent = test_order (test_arguments config intent)

  abbrev pub Result : Type 0
  Result = Option ExecutionResult

-- The status after a failure of the protective orders.
unfoldable pub status_after_failure : Resolution → String → String
status_after_failure no_matching_position status = "protective_order_failed_no_position"
status_after_failure existing_present status = status
status_after_failure fallback_submitted status = status
status_after_failure fallback_stop_submitted status = "protective_order_degraded_stop_only"
status_after_failure emergency_closed status = "protective_order_failed_closed"
status_after_failure emergency_close_failed status = "protective_order_failed_open"

-- `RiskDecision(True, [*risk.reason_codes, status], risk.warnings)`
unfoldable pub with_status : RiskDecision → String → RiskDecision
with_status risk status = record {
  accepted = true;
  reason_codes = risk.reason_codes ++ (status ∷ []);
  warnings = risk.warnings;
}

module _ {fl : Float} {ex : Exchange fl} (engine : Engine fl) where
  -- `_finish`, with the type of the response that is persisted if there is one.
  unfoldable pub finish :
      String
      → Bool
      → Option (OrderIntent fl)
      → RiskDecision
      → Option String
      → Action fl ex (Result fl)
  finish status submitted intent risk type w = (
    ok (some (record { status = status; submitted = submitted; intent = intent; risk = risk })),
    record w { store = artifacts fl engine.has_store status intent risk type ++ w.store },
  )

  -- The end of a run that the exchange did not take on.
  unfoldable pub reject :
      Option (OrderIntent fl) → RiskDecision → Option String → Action fl ex (Result fl)
  reject intent risk type = finish "rejected" false intent risk type

  unfoldable pub submitted_as : String → OrderIntent fl → RiskDecision → Action fl ex (Result fl)
  submitted_as status intent risk = finish status true (some intent) risk (some "new_order")

  unfoldable pub after_failure :
      Option String → String → OrderIntent fl → RiskDecision → Action fl ex (Result fl)
  after_failure side status intent risk =
      resolve_protective_failure engine.config intent side >>= λ resolution.
      submitted_as (status_after_failure resolution status) intent risk

  -- A `ValueError` of the recovery ends the run.
  unfoldable pub recovered_as :
      Option (Dict fl) → String → OrderIntent fl → RiskDecision → Action fl ex (Result fl)
  recovered_as none status intent risk = pure none
  recovered_as (some placed) status intent risk = submitted_as status intent risk

  -- The conflict with closing orders that are there is tried to be resolved first.
  unfoldable pub protective_error :
      Option String
      → String
      → OrderIntent fl
      → RiskDecision
      → SignedError
      → Action fl ex (Result fl)
  protective_error side status intent risk e =
      let recover = attempt (replace_conflicting_orders engine.config intent) >>= λ recovery.
      elim recovery [
        | ok placed ↦ recovered_as placed status intent risk
        | err again ↦ after_failure side status intent risk
      ] in
      if is_existing_close_position_error e then recover else after_failure side status intent risk

  -- From the entry on: the protective orders, if they are required.
  unfoldable pub protect_entry :
      Option String → String → OrderIntent fl → RiskDecision → Action fl ex (Result fl)
  protect_entry side status intent risk =
      if protective_orders_required engine.config
      then (attempt (place_protective_orders engine.config intent) >>= λ placed. elim placed [
        | ok orders ↦ submitted_as status intent risk
        | err e ↦ protective_error side status intent risk e
      ])
      else submitted_as status intent risk

  unfoldable pub not_entered : OrderIntent fl → RiskDecision → String → Action fl ex (Result fl)
  not_entered intent risk status =
      finish status false (some intent) (with_status risk status) (some "new_order")

  -- After an error of the limit entry: the position that is there decides.
  unfoldable pub limit_error :
      Option String
      → OrderIntent fl
      → String
      → RiskDecision
      → Option (OrderIntent fl)
      → Action fl ex (Result fl)
  limit_error side intent id risk none =
      cancel_unknown_entry engine.config intent id >>= λ status. not_entered intent risk status
  limit_error side intent id risk (some active) =
      protect_entry side "entry_order_reconciled_from_position" active risk

  unfoldable pub limit_answer :
      Option String
      → OrderIntent fl
      → String
      → RiskDecision
      → Outcome (LimitEntry fl)
      → Action fl ex (Result fl)
  limit_answer side intent id risk (err e) =
      reconcile_unknown_entry engine.config intent >>= λ active.
      limit_error side intent id risk active
  limit_answer side intent id risk (ok entry) =
      if entry.submitted
      then protect_entry side entry.status entry.intent risk
      else not_entered intent risk entry.status

  -- From the accepted entry order on.
  unfoldable pub after_entry :
      Option String → EntrySubmission fl → RiskDecision → Action fl ex (Result fl)
  after_entry side entry risk =
      if is_limit_order fl entry.intent
      then (attempt
            (resolve_limit_entry engine.config entry.intent engine.polls entry.client_order_id)
          >>= λ answer. limit_answer side entry.intent entry.client_order_id risk answer)
      else protect_entry side "submitted" entry.intent risk
