-- ===== src/Tests/EventStore.antt =====
-- The event store at concrete rows and faults.
use binance_future_agent.Base.{
  ℕ, zero, suc, ◌+◌, ◌<◌, ◌≡◌, refl, [], true, false, none, some, arith, if◌then◌else◌, contains,
  ◌==◌, inl, count, ◌&&◌, Bool,
}
use binance_future_agent.EventStore.{
  Artifact, Attempt, Event, Database, Connection, locked, other_fault, recorded, event_row,
  category_row, insert_artifact, in_range, events_between, insert_event, insert_row,
}
use binance_future_agent.EventStore.Atomic.{AllOrNothing, insert_artifact-AllOrNothing}
use binance_future_agent.EventStore.Linked.{IsLinked, IsConsistent, insert_artifact-IsConsistent}
use binance_future_agent.EventStore.Found.{events_between-insert_artifact}
use binance_future_agent.EventStore.Retried.{first_fault, inserted, insert_artifact-inserted}

abbrev fill : Artifact
fill = record {
  category = "fills";
  occurred_at = "2026-01-02T00:00:00+00:00";
  payload_json = "{}";
  source = some "binance";
  symbol = some "BTCUSDT";
  ref_id = none;
  event_type = none;
}

abbrev outcome : Artifact
outcome = record fill { category = "outcomes"; occurred_at = "2026-01-01T00:00:00+00:00" }

abbrev empty : Database
empty = record { events = []; rows = []; sequence = 0 }

abbrev one_fill : Database
one_fill = recorded fill empty

abbrev connection : Connection
connection = record { committed = one_fill; seen = one_fill }

abbrev fine : Attempt
fine = record { on_event = none; on_row = none; on_commit = none; rolled_back = false }

abbrev lock_on_row : Attempt
lock_on_row = record fine { on_row = some locked }

-- The database is locked for two attempts.
abbrev twice_locked : ℕ → Attempt
twice_locked zero = lock_on_row
twice_locked (suc zero) = record fine { on_commit = some locked }
twice_locked _ = fine

abbrev refused : ℕ → Attempt
refused _ = record fine { on_commit = some other_fault }

insert_artifact-AllOrNothing_example :
    AllOrNothing outcome connection (insert_artifact twice_locked outcome connection)
insert_artifact-AllOrNothing_example =
    insert_artifact-AllOrNothing twice_locked outcome connection refl

linked : IsConsistent connection
unfolding recorded insert_row insert_event event_row category_row
linked =
    let database : IsLinked one_fill =
      ((omega arith, tt), (inl (refl, refl, refl, refl, refl, refl), tt)) in
    (database, database)

insert_artifact-IsConsistent_example :
    IsConsistent (insert_artifact twice_locked outcome connection).1
insert_artifact-IsConsistent_example =
    insert_artifact-IsConsistent twice_locked outcome connection linked

abbrev any_event : Event → Bool
any_event e = true

locked_before : (i : ℕ) → i < 2 → first_fault (twice_locked i) ≡ some locked
locked_before zero h = refl
locked_before (suc zero) h = refl
locked_before (suc (suc i)) h = ground arith

insert_artifact-inserted_example :
    insert_artifact twice_locked outcome connection ≡ inserted outcome connection
unfolding contains ◌==◌
insert_artifact-inserted_example =
    insert_artifact-inserted twice_locked outcome connection 2 refl refl (omega arith) locked_before
      refl

events_between-insert_artifact_example :
    count any_event (events_between "2026-01-01" "2026-01-03" none (inserted outcome connection).1)
    ≡ (if in_range "2026-01-01" "2026-01-03" none (event_row outcome 2)
          && any_event (event_row outcome 2)
        then 1
        else 0)
      + count any_event (events_between "2026-01-01" "2026-01-03" none connection)
unfolding recorded insert_row insert_event
events_between-insert_artifact_example =
    events_between-insert_artifact twice_locked outcome connection (inserted outcome connection).1 2
      "2026-01-01" "2026-01-03" none any_event refl insert_artifact-inserted_example
