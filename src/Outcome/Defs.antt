-- ===== src/Outcome/Defs.antt =====
-- src/bfa/execution/outcome.py: `persist_trade_outcome` over the tables of the event store. The payloads
-- are the texts that `_to_json` makes, and every insert meets its own faults.
use binance_future_agent.Base.{
  ℕ, ◌+◌, String, Bool, false, Option, none, some, List, [], ◌∷◌, ◌==◌, ◌<>◌, ◌&&◌, if◌then◌else◌,
  or_default,
}
use binance_future_agent.Base.Int.{pos}
use binance_future_agent.Base.Json.{show_int}
use binance_future_agent.EventStore.{
  Artifact, Attempt, Connection, Inserted, event_of, failed, unknown_category, Row, insert_artifact,
}

-- What is read of a summary of `_trade_summary`; `trade_id` is its text.
pub record Fill : Type 0 where
  pub trade_id : String
  pub time_iso : Option String
  pub payload_json : String

-- What is read of a `TradeOutcome` and of its intent.
pub record TradeOutcome : Type 0 where
  pub event_id : ℕ
  pub occurred_at : String
  pub symbol : String
  pub status : String
  pub last_trade_time : Option String
  pub trades : List Fill
  pub payload_json : String

-- The counts that are returned, with the event of the outcome.
pub record Counts : Type 0 where
  pub fills : ℕ
  pub fills_existing : ℕ

pub record Persisted : Type 0 where
  pub counts : Counts
  pub outcomes : ℕ
  pub outcome_inserted : ℕ

-- A value, or the insert that raised.
pub data Result (A : Type 0) : Type 0 where
  done : A → Result A
  raised : Inserted → Result A

unfoldable pub has_ref : String → String → Row → Bool
has_ref category ref row =
    row.table == category && elim row.ref_id [ none ↦ false | some r ↦ r == ref ]

-- `_existing_event_id`: the earliest row, which stands last.
unfoldable pub existing_event_id : String → String → List Row → Option ℕ
existing_event_id category ref [] = none
existing_event_id category ref (row ∷ rows) = elim (existing_event_id category ref rows) [
  | some id ↦ some id
  | none ↦ if has_ref category ref row then some row.event_id else none
]

unfoldable pub fill_ref : TradeOutcome → Fill → String
fill_ref outcome trade = "fill:" <> outcome.symbol <> ":" <> trade.trade_id

unfoldable pub outcome_ref : TradeOutcome → String
outcome_ref outcome = "outcome:" <> show_int (pos outcome.event_id) <> ":" <> outcome.status

unfoldable pub fill_artifact : TradeOutcome → Fill → Artifact
fill_artifact outcome trade = record {
  category = "fills";
  occurred_at = or_default trade.time_iso "None";
  payload_json = trade.payload_json;
  source = some "binance_usdm";
  symbol = some outcome.symbol;
  ref_id = some (fill_ref outcome trade);
  event_type = some "fill";
}

unfoldable pub outcome_artifact : TradeOutcome → Artifact
outcome_artifact outcome = record {
  category = "outcomes";
  occurred_at = elim outcome.last_trade_time [
    | none ↦ outcome.occurred_at
    | some t ↦ if t == "" then outcome.occurred_at else t
  ];
  payload_json = outcome.payload_json;
  source = some "binance_usdm";
  symbol = some outcome.symbol;
  ref_id = some (outcome_ref outcome);
  event_type = some "outcome";
}

-- What follows an insert: nothing, where it raised.
unfoldable pub after_insert :
    {A : Type 0}
    → (ℕ → Connection → Result A × Connection)
    → Inserted × Connection
    → Result A × Connection
after_insert next (event_of id, c) = next id c
after_insert next (failed fault, c) = (raised (failed fault), c)
after_insert next (unknown_category, c) = (raised unknown_category, c)

unfoldable pub counted : (Counts → Counts) → Result Counts × Connection → Result Counts × Connection
counted count (done n, c) = (done (count n), c)
counted count (raised e, c) = (raised e, c)

abbrev pub one_more : Counts → Counts
one_more n = record n { fills = n.fills + 1 }

abbrev pub one_existing : Counts → Counts
one_existing n = record n { fills_existing = n.fills_existing + 1 }

-- The loop over the trades. The inserts of fills are numbered from `index`.
unfoldable pub persist_fills :
    (ℕ → ℕ → Attempt) → TradeOutcome → List Fill → ℕ → Connection → Result Counts × Connection
persist_fills attempts outcome [] index c = (done (record { fills = 0; fills_existing = 0 }), c)
persist_fills attempts outcome (trade ∷ trades) index c =
    elim (existing_event_id "fills" (fill_ref outcome trade) c.seen.rows) [
      | some id ↦ counted one_existing (persist_fills attempts outcome trades index c)
      | none ↦
          after_insert
            (λ id d. counted one_more (persist_fills attempts outcome trades (index + 1) d))
            (insert_artifact (attempts index) (fill_artifact outcome trade) c)
    ]

-- The outcome, after its fills.
unfoldable pub persist_outcome :
    (ℕ → Attempt) → TradeOutcome → Result Counts × Connection → Result Persisted × Connection
persist_outcome attempts outcome (raised e, c) = (raised e, c)
persist_outcome attempts outcome (done n, c) =
    elim (existing_event_id "outcomes" (outcome_ref outcome) c.seen.rows) [
      | some id ↦ (done (record { counts = n; outcomes = id; outcome_inserted = 0 }), c)
      | none ↦
          after_insert
            (λ id d. (done (record { counts = n; outcomes = id; outcome_inserted = 1 }), d))
            (insert_artifact attempts (outcome_artifact outcome) c)
    ]

-- `persist_trade_outcome`, with what every insert of a fill meets, and that of the outcome.
unfoldable pub persist_trade_outcome :
    (ℕ → ℕ → Attempt) → (ℕ → Attempt) → TradeOutcome → Connection → Result Persisted × Connection
persist_trade_outcome on_fills on_outcome outcome c =
    persist_outcome on_outcome outcome (persist_fills on_fills outcome outcome.trades 0 c)

unfoldable pub outcome_ops : Unit {0}
unfolding has_ref existing_event_id fill_ref outcome_ref fill_artifact outcome_artifact after_insert
    counted persist_fills persist_outcome persist_trade_outcome
outcome_ops = tt
