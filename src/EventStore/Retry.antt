-- ===== src/EventStore/Retry.antt =====
-- src/bfa/event_store/store.py: `insert_artifact` and `_with_lock_retry`. The delays between the
-- attempts are left out.
use binance_future_agent.Base.{ℕ, zero, suc, ◌+◌, if◌then◌else◌, contains}
use binance_future_agent.EventStore.Defs.{
  Artifact, Connection, locked, other_fault, Attempt, Inserted, event_of, failed, unknown_category,
  category_tables, rollback, insert_artifact_once,
}

-- `len(SQLITE_LOCK_RETRY_DELAYS_SECONDS)`
abbrev pub lock_retries : ℕ
lock_retries = 3

-- The `except` clause: a lock is rolled back and tried again, any other fault is raised as it is.
unfoldable pub retried :
    (Connection → Inserted × Connection) → Inserted × Connection → Inserted × Connection
retried again (event_of id, c) = (event_of id, c)
retried again (unknown_category, c) = (unknown_category, c)
retried again (failed other_fault, c) = (failed other_fault, c)
retried again (failed locked, c) = again (rollback c)

-- The loop of `_with_lock_retry`, by how many delays are left. The attempts are numbered from
-- zero, and the fault of the last one is raised.
unfoldable pub insert_with_retry :
    (ℕ → Attempt) → Artifact → ℕ → ℕ → Connection → Inserted × Connection
insert_with_retry attempts a zero index c = insert_artifact_once (attempts index) a c
insert_with_retry attempts a (suc left) index c =
    retried (insert_with_retry attempts a left (index + 1))
      (insert_artifact_once (attempts index) a c)

-- `EventStore.insert_artifact`
unfoldable pub insert_artifact : (ℕ → Attempt) → Artifact → Connection → Inserted × Connection
insert_artifact attempts a c =
    if contains category_tables a.category
    then insert_with_retry attempts a lock_retries 0 c
    else (unknown_category, c)
