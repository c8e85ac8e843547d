-- ===== src/Watchdog/Tables.antt =====
-- src/bfa/ops/pending_limit_watchdog.py: the tables that the watchdog reads and writes, as lists of
-- rows with the latest first; `_load_unresolved_pending_limit_intents` and
-- `_persist_watchdog_resolution`. Of a response only what the watchdog reads again is kept.
use binance_future_agent.Base.{
  ℕ, ◌+◌, String, ◌<>◌, Bool, false, not, ◌&&◌, ◌||◌, Option, none, some, List, [], ◌∷◌, ◌++◌, any,
  contains, nat_eq, ltb, text_lt, ◌==◌, if◌then◌else◌,
}
use binance_future_agent.Base.Int.{pos}
use binance_future_agent.Base.Float.{Float}
use binance_future_agent.Base.Text.{upper}
use binance_future_agent.Base.Json.{Json, Dict, get, text_or_blank, truthy, text, show_int}
use binance_future_agent.Base.Sort.{sort_by}
use binance_future_agent.Models.{OrderIntent, RiskDecision}
use binance_future_agent.Models.Payload.{intent_dict, risk_dict, intent_from_payload}
use binance_future_agent.Executor.{client_order_id}

-- What the watchdog reads of a row of `exchange_responses`.
pub record ResponseRow : Type 0 where
  pub watchdog_status : Option String
  pub pending_intent_event_id : Option ℕ

module _ (fl : Float) where
  -- A row of `order_intents`.
  pub record IntentRow : Type 0 where
    pub event_id : ℕ
    pub occurred_at : String
    pub payload : Dict fl

  -- `closed` has the `ref_id` of each row of `outcomes`, and `sequence` is the last event identifier.
  pub record Ledger : Type 0 where
    pub intents : List IntentRow
    pub responses : List ResponseRow
    pub closed : List String
    pub sequence : ℕ

  -- `PendingLimitOrderIntent`
  pub record PendingOrder : Type 0 where
    pub event_id : ℕ
    pub occurred_at : String
    pub status : String
    pub intent : OrderIntent fl
    pub client_order_id : String

-- The statuses that `_resolved_pending_event_ids` takes for a resolution.
unfoldable pub settles : Option String → Bool
settles none = false
settles (some status) =
    contains
      ("filled_protected" ∷ "position_reconciled_protected" ∷ "terminal_no_fill"
        ∷ "filled_no_active_position" ∷ [])
      status

unfoldable pub names : ℕ → Option ℕ → Bool
names id none = false
names id (some other) = nat_eq other id

-- `event_id in _resolved_pending_event_ids(connection)`
unfoldable pub is_resolved : List ResponseRow → ℕ → Bool
is_resolved rows id =
    any (λ row. settles row.watchdog_status && names id row.pending_intent_event_id) rows

-- `_has_closed_outcome_for_event`
unfoldable pub has_closed_outcome : List String → ℕ → Bool
has_closed_outcome refs id = contains refs ("outcome:" <> (show_int (pos id) <> ":closed"))

module _ {fl : Float} where
  -- `ORDER BY occurred_at ASC, id ASC`
  unfoldable pub row_before : IntentRow fl → IntentRow fl → Bool
  row_before a b =
      text_lt a.occurred_at b.occurred_at
      || (a.occurred_at == b.occurred_at && ltb a.event_id b.event_id)

  -- `_intent_client_order_id`
  unfoldable pub intent_client_order_id : OrderIntent fl → String
  intent_client_order_id intent =
      let explicit = get intent.metadata "client_order_id" in
      if truthy explicit then text explicit else client_order_id fl intent

  -- The pending order of an intent that was read from a row, if it is a limit order.
  unfoldable pub limit_order : IntentRow fl → OrderIntent fl → List (PendingOrder fl)
  limit_order row intent =
      if upper intent.order_type == "LIMIT"
      then record {
        event_id = row.event_id;
        occurred_at = row.occurred_at;
        status = text (get row.payload "status");
        intent = intent;
        client_order_id = intent_client_order_id intent;
      }
        ∷ []
      else []

  -- The pending order of an intent that stands in a payload; nothing where it cannot be read.
  unfoldable pub read_order : IntentRow fl → Json fl → Option (List (PendingOrder fl))
  read_order row (Json.obj d) = elim (intent_from_payload d) [
    | none ↦ none
    | some intent ↦ some (limit_order row intent)
  ]
  read_order row _ = some []

  -- The pending order of a row that is not resolved.
  unfoldable pub pending_of : IntentRow fl → Option (List (PendingOrder fl))
  pending_of row =
      if text_or_blank (get row.payload "status") == "entry_order_pending"
      then read_order row (get row.payload "intent")
      else some []

  unfoldable pub joined :
      Option (List (PendingOrder fl))
      → Option (List (PendingOrder fl))
      → Option (List (PendingOrder fl))
  joined none rest = none
  joined (some these) none = none
  joined (some these) (some rest) = some (these ++ rest)

  -- A row that is resolved or has a closed outcome is passed over before it is read.
  unfoldable pub is_open : List ResponseRow → List String → IntentRow fl → Bool
  is_open responses closed row =
      not (is_resolved responses row.event_id) && not (has_closed_outcome closed row.event_id)

  unfoldable pub pending_orders :
      List ResponseRow → List String → List (IntentRow fl) → Option (List (PendingOrder fl))
  pending_orders responses closed [] = some []
  pending_orders responses closed (row ∷ rows) =
      let rest = pending_orders responses closed rows in
      if is_open responses closed row then joined (pending_of row) rest else rest

  -- `_load_unresolved_pending_limit_intents`; nothing where it raises.
  unfoldable pub load_pending : Ledger fl → Option (List (PendingOrder fl))
  load_pending ledger =
      pending_orders ledger.responses ledger.closed (sort_by row_before ledger.intents)

  -- `persist_order_intent`
  unfoldable pub persist_intent : OrderIntent fl → String → RiskDecision → Ledger fl → Ledger fl
  persist_intent intent status risk ledger = record ledger {
    intents =
        record {
          event_id = ledger.sequence + 1;
          occurred_at = intent.decided_at;
          payload = Dict.field "status" (Json.str status) (
              Dict.field "intent" (Json.obj (intent_dict intent))
                (Dict.field "risk" (Json.obj (risk_dict risk)) Dict.end));
        }
        ∷ ledger.intents;
    sequence = ledger.sequence + 1;
  }

  -- `persist_exchange_response`
  unfoldable pub persist_response : ResponseRow → Ledger fl → Ledger fl
  persist_response row ledger = record ledger {
    responses = row ∷ ledger.responses;
    sequence = ledger.sequence + 1;
  }

  -- `_persist_watchdog_resolution`: the identifiers of the two events, and the tables.
  unfoldable pub persist_resolution :
      OrderIntent fl → String → ResponseRow → RiskDecision → Ledger fl → (ℕ × ℕ) × Ledger fl
  persist_resolution intent status row risk ledger = (
    (ledger.sequence + 1, ledger.sequence + 2),
    persist_response row (persist_intent intent status risk ledger),
  )
