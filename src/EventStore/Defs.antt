-- ===== src/EventStore/Defs.antt =====
-- src/bfa/event_store/store.py: `_insert_artifact_once`, and the tables of
-- src/bfa/event_store/migrations.py that it writes. A connection keeps what is committed and what it
-- sees itself, which differ while a transaction is open; SQLite may refuse any statement.
use binance_future_agent.Base.{
  ℕ, ◌+◌, String, Bool, Option, none, some, List, [], ◌∷◌, ◌==◌, if◌then◌else◌,
}

-- `CATEGORY_TABLES`
abbrev pub category_tables : List String
category_tables =
    "narratives" ∷ "market_snapshots" ∷ "decision_snapshots" ∷ "candidates" ∷ "trade_setups"
    ∷ "ai_decisions" ∷ "order_intents" ∷ "exchange_responses" ∷ "fills" ∷ "risk_state" ∷ "outcomes"
    ∷ "paper_signals" ∷ "paper_observations" ∷ "paper_outcomes" ∷ []

-- The arguments of `insert_artifact`; the payload is the text that `_to_json` makes.
pub record Artifact : Type 0 where
  pub category : String
  pub occurred_at : String
  pub payload_json : String
  pub source : Option String
  pub symbol : Option String
  pub ref_id : Option String
  pub event_type : Option String

-- A row of `events`, which is also a `StoredEvent`.
pub record Event : Type 0 where
  pub id : ℕ
  pub event_type : String
  pub occurred_at : String
  pub source : Option String
  pub symbol : Option String
  pub ref_id : Option String
  pub payload_json : String

-- A row of a category's table; the tables are one list, with the name of the table in each row.
pub record Row : Type 0 where
  pub table : String
  pub occurred_at : String
  pub source : Option String
  pub symbol : Option String
  pub ref_id : Option String
  pub payload_json : String
  pub event_id : ℕ

-- The latest row first. `sequence` is the last identifier that `events` gave out, which
-- `AUTOINCREMENT` keeps.
pub record Database : Type 0 where
  pub events : List Event
  pub rows : List Row
  pub sequence : ℕ

pub record Connection : Type 0 where
  pub committed : Database
  pub seen : Database

-- `sqlite3.OperationalError`, as `_is_database_locked` tells it, or another error.
pub data Fault : Type 0 where
  locked other_fault : Fault

-- What becomes of the three statements of an attempt, and whether SQLite rolls the transaction back
-- itself when one fails, as it does on some faults.
pub record Attempt : Type 0 where
  pub on_event : Option Fault
  pub on_row : Option Fault
  pub on_commit : Option Fault
  pub rolled_back : Bool

pub data Inserted : Type 0 where
  event_of : ℕ → Inserted
  failed : Fault → Inserted
  -- `ValueError` of `_validate_category`.
  unknown_category : Inserted

-- `event_type or category`: a blank type counts as missing.
unfoldable pub type_of : Artifact → String
type_of a = elim a.event_type [ none ↦ a.category | some t ↦ if t == "" then a.category else t ]

unfoldable pub event_row : Artifact → ℕ → Event
event_row a id = record {
  id = id;
  event_type = type_of a;
  occurred_at = a.occurred_at;
  source = a.source;
  symbol = a.symbol;
  ref_id = a.ref_id;
  payload_json = a.payload_json;
}

unfoldable pub category_row : Artifact → ℕ → Row
category_row a id = record {
  table = a.category;
  occurred_at = a.occurred_at;
  source = a.source;
  symbol = a.symbol;
  ref_id = a.ref_id;
  payload_json = a.payload_json;
  event_id = id;
}

-- `INSERT INTO events`: the identifier is one more than the last.
unfoldable pub insert_event : Artifact → Database → Database
insert_event a db = record db {
  events = event_row a (db.sequence + 1) ∷ db.events;
  sequence = db.sequence + 1;
}

-- `INSERT INTO {category}`
unfoldable pub insert_row : Artifact → ℕ → Database → Database
insert_row a id db = record db { rows = category_row a id ∷ db.rows }

-- Both rows of an artifact.
unfoldable pub recorded : Artifact → Database → Database
recorded a db = insert_row a (db.sequence + 1) (insert_event a db)

unfoldable pub commit : Connection → Connection
commit c = record c { committed = c.seen }

unfoldable pub rollback : Connection → Connection
rollback c = record c { seen = c.committed }

-- `_insert_artifact_once`, by clauses on what becomes of each statement.
unfoldable pub insert_steps :
    Artifact → Option Fault → Option Fault → Option Fault → Connection → Inserted × Connection
insert_steps a (some f) on_row on_commit c = (failed f, c)
insert_steps a none (some f) on_commit c = (failed f, record c { seen = insert_event a c.seen })
insert_steps a none none (some f) c = (failed f, record c { seen = recorded a c.seen })
insert_steps a none none none c =
    (event_of (c.seen.sequence + 1), commit (record c { seen = recorded a c.seen }))

-- The connection that an attempt leaves.
unfoldable pub left_by : Bool → Inserted × Connection → Inserted × Connection
left_by rolled_back (event_of id, c) = (event_of id, c)
left_by rolled_back (unknown_category, c) = (unknown_category, c)
left_by rolled_back (failed f, c) = (failed f, if rolled_back then rollback c else c)

unfoldable pub insert_artifact_once : Attempt → Artifact → Connection → Inserted × Connection
unfolding insert_steps
insert_artifact_once attempt a c =
    left_by attempt.rolled_back (insert_steps a attempt.on_event attempt.on_row attempt.on_commit c)
