-- ===== src/Tests/Outcome.antt =====
-- An outcome of two fills, one of which is there already, on a database that is locked at times.
use binance_future_agent.Base.{
  ℕ, zero, suc, ◌+◌, ◌<◌, ◌≡◌, false, refl, [], ◌∷◌, none, some, arith, contains, ◌==◌,
}
use binance_future_agent.Base.Json.{json_ops}
use binance_future_agent.EventStore.{
  Attempt, Database, Connection, locked, other_fault, failed, recorded, event_row, category_row,
  insert_event, insert_row, insert_steps, left_by, insert_artifact_once, insert_with_retry,
  insert_artifact, retried, rollback, commit,
}
use binance_future_agent.EventStore.Retried.{first_fault}
use binance_future_agent.Outcome.{
  Fill, TradeOutcome, Persisted, done, raised, fill_artifact, persist_trade_outcome, outcome_ops,
}
use binance_future_agent.Outcome.Repeated.{IsRepeatable, persist_trade_outcome-IsRepeatable}
use binance_future_agent.Outcome.Returned.{IsTaken, persist_trade_outcome-returns}

abbrev bought : Fill
bought = record { trade_id = "7"; time_iso = some "2026-01-02T00:00:00Z"; payload_json = "{}" }

abbrev sold : Fill
sold = record { trade_id = "8"; time_iso = some "2026-01-02T01:00:00Z"; payload_json = "{}" }

abbrev trade_closed : TradeOutcome
trade_closed = record {
  event_id = 3;
  occurred_at = "2026-01-01T23:00:00Z";
  symbol = "BTCUSDT";
  status = "closed";
  last_trade_time = some "2026-01-02T01:00:00Z";
  trades = bought ∷ sold ∷ [];
  payload_json = "{}";
}

abbrev empty : Database
empty = record { events = []; rows = []; sequence = 0 }

abbrev one_fill : Database
one_fill = recorded (fill_artifact trade_closed bought) empty

abbrev connection : Connection
connection = record { committed = one_fill; seen = one_fill }

abbrev fine : Attempt
fine = record { on_event = none; on_row = none; on_commit = none; rolled_back = false }

-- The database is locked at the first attempt.
abbrev once_locked : ℕ → Attempt
once_locked zero = record fine { on_row = some locked }
once_locked _ = fine

abbrev refused : ℕ → Attempt
refused _ = record fine { on_commit = some other_fault }

once_locked-IsTaken : IsTaken once_locked
once_locked-IsTaken = (1, omega arith, locked_first, refl)
  where
    locked_first : (i : ℕ) → i < 1 → first_fault (once_locked i) ≡ some locked
    locked_first zero h = refl
    locked_first (suc i) h = ground arith

persist_trade_outcome-IsRepeatable_example :
    IsRepeatable
      (λ _. refused)
      refused
      trade_closed
      (persist_trade_outcome (λ _. once_locked) once_locked trade_closed connection)
persist_trade_outcome-IsRepeatable_example =
    persist_trade_outcome-IsRepeatable (λ _. once_locked) (λ _. refused) once_locked refused
      trade_closed connection refl

persist_trade_outcome-returns_example :
    (p : Persisted) × (d : Connection) × (persist_trade_outcome
        (λ _. once_locked)
        once_locked
        trade_closed
        connection
      ≡ (done p, d))
    × (p.counts.fills + p.counts.fills_existing ≡ 2)
persist_trade_outcome-returns_example =
    persist_trade_outcome-returns (λ _. once_locked) once_locked trade_closed connection refl
      (λ _. once_locked-IsTaken) once_locked-IsTaken

-- The fill that is there is counted, the other one and the outcome are inserted.
persisted :
    (persist_trade_outcome (λ _. once_locked) once_locked trade_closed connection).0
    ≡ done (record {
      counts = record { fills = 1; fills_existing = 1 };
      outcomes = 3;
      outcome_inserted = 1;
    })
unfolding outcome_ops json_ops recorded event_row category_row insert_event insert_row insert_steps
    left_by insert_artifact_once insert_with_retry insert_artifact retried rollback commit contains
    ◌==◌
persisted = refl

-- A refused commit of the second fill is raised.
refused_fill :
    (persist_trade_outcome (λ _. refused) once_locked trade_closed connection).0
    ≡ raised (failed other_fault)
unfolding outcome_ops json_ops recorded event_row category_row insert_event insert_row insert_steps
    left_by insert_artifact_once insert_with_retry insert_artifact retried rollback commit contains
    ◌==◌
refused_fill = refl
