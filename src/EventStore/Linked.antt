-- ===== src/EventStore/Linked.antt =====
-- The tables against each other: every row of a category's table has its event.
use binance_future_agent.Base.{
  Bool, ℕ, zero, suc, ◌+◌, ◌<◌, ◌≡◌, refl, ◌⊎◌, inl, inr, Option, none, some, List, [], ◌∷◌, true,
  false, arith, contains, if◌then◌else◌, All,
}
use binance_future_agent.EventStore.Defs.{
  Artifact, Connection, Database, Event, Row, Fault, locked, other_fault, Attempt, Inserted,
  event_of, failed, unknown_category, category_tables, rollback, commit, recorded, insert_row,
  insert_event, insert_artifact_once, insert_steps, left_by, event_row, category_row,
}
use binance_future_agent.EventStore.Retry.{
  retried, insert_with_retry, insert_artifact, lock_retries,
}

-- The event a row names, with the same fields.
abbrev pub Describes : Row → Event → Type 0
Describes row e =
    (row.event_id ≡ e.id)
    × (row.occurred_at ≡ e.occurred_at)
    × (row.source ≡ e.source)
    × (row.symbol ≡ e.symbol)
    × (row.ref_id ≡ e.ref_id)
    × (row.payload_json ≡ e.payload_json)

abbrev pub HasEvent : List Event → Row → Type 0
HasEvent [] row = zero ≡ suc zero
HasEvent (e ∷ es) row = Describes row e ⊎ HasEvent es row

-- The identifiers stay below a bound and fall from each event to the one before it.
abbrev pub Falling : ℕ → List Event → Type 0
Falling bound [] = Unit
Falling bound (e ∷ es) = (e.id < bound) × Falling e.id es

abbrev pub IsLinked : Database → Type 0
IsLinked db = Falling (db.sequence + 1) db.events × All (HasEvent db.events) db.rows

abbrev pub IsConsistent : Connection → Type 0
IsConsistent c = IsLinked c.committed × IsLinked c.seen

still-HasEvent :
    (e : Event) (es : List Event) (rows : List Row)
    → All (HasEvent es) rows
    → All (HasEvent (e ∷ es)) rows
still-HasEvent e es [] all = tt
still-HasEvent e es (row ∷ rows) all = (inr all.0, still-HasEvent e es rows all.1)

insert_event-IsLinked : (a : Artifact) (db : Database) → IsLinked db → IsLinked (insert_event a db)
unfolding insert_event event_row
insert_event-IsLinked a db linked = (
  (omega arith, linked.0),
  still-HasEvent (event_row a (db.sequence + 1)) db.events db.rows linked.1,
)

recorded-IsLinked : (a : Artifact) (db : Database) → IsLinked db → IsLinked (recorded a db)
unfolding recorded insert_row insert_event event_row category_row
recorded-IsLinked a db linked =
    let next = insert_event-IsLinked a db linked in
    (next.0, (inl (refl, refl, refl, refl, refl, refl), next.1))

steps-IsConsistent :
    (a : Artifact) (on_event on_row on_commit : Option Fault) (c : Connection)
    → IsConsistent c
    → IsConsistent (insert_steps a on_event on_row on_commit c).1
unfolding insert_steps commit
steps-IsConsistent a (some f) on_row on_commit c good = good
steps-IsConsistent a none (some f) on_commit c good =
    (good.0, insert_event-IsLinked a c.seen good.1)
steps-IsConsistent a none none (some f) c good = (good.0, recorded-IsLinked a c.seen good.1)
steps-IsConsistent a none none none c good =
    let next = recorded-IsLinked a c.seen good.1 in (next, next)

left_by-IsConsistent :
    (rolled_back : Bool) (out : Inserted × Connection)
    → IsConsistent out.1
    → IsConsistent (left_by rolled_back out).1
unfolding left_by rollback
left_by-IsConsistent rolled_back (event_of id, d) good = good
left_by-IsConsistent rolled_back (unknown_category, d) good = good
left_by-IsConsistent true (failed f, d) good = (good.0, good.0)
left_by-IsConsistent false (failed f, d) good = good

once-IsConsistent :
    (attempt : Attempt) (a : Artifact) (c : Connection)
    → IsConsistent c
    → IsConsistent (insert_artifact_once attempt a c).1
unfolding insert_artifact_once
once-IsConsistent attempt a c good =
    left_by-IsConsistent attempt.rolled_back
      (insert_steps a attempt.on_event attempt.on_row attempt.on_commit c)
      (steps-IsConsistent a attempt.on_event attempt.on_row attempt.on_commit c good)

-- What `insert_with_retry` makes of an attempt.
retry-IsConsistent :
    (again : Connection → Inserted × Connection)
    → ((d : Connection) → IsConsistent d → IsConsistent (again d).1)
    → (out : Inserted × Connection) → IsConsistent out.1
    → IsConsistent (retried again out).1
unfolding retried rollback
retry-IsConsistent again next (event_of id, d) good = good
retry-IsConsistent again next (unknown_category, d) good = good
retry-IsConsistent again next (failed other_fault, d) good = good
retry-IsConsistent again next (failed locked, d) good = next (rollback d) (good.0, good.0)

retries-IsConsistent :
    (attempts : ℕ → Attempt) (a : Artifact) (left index : ℕ) (c : Connection)
    → IsConsistent c
    → IsConsistent (insert_with_retry attempts a left index c).1
unfolding insert_with_retry
retries-IsConsistent attempts a zero index c good = once-IsConsistent (attempts index) a c good
retries-IsConsistent attempts a (suc left) index c good =
    retry-IsConsistent (insert_with_retry attempts a left (index + 1))
      (retries-IsConsistent attempts a left (index + 1)) (insert_artifact_once (attempts index) a c)
      (once-IsConsistent (attempts index) a c good)

-- An insert keeps every row of a category with the event it names, with the same fields, and the
-- identifiers of the events apart and below the next one, in what is committed and in what is seen.
pub insert_artifact-IsConsistent :
    (attempts : ℕ → Attempt) (a : Artifact) (c : Connection)
    → IsConsistent c
    → IsConsistent (insert_artifact attempts a c).1
unfolding insert_artifact
insert_artifact-IsConsistent attempts a c good =
    elim (contains category_tables a.category)
      as (λ b.
        IsConsistent
          (if b then insert_with_retry attempts a lock_retries 0 c else (unknown_category, c)).1) [
            | true ↦ retries-IsConsistent attempts a lock_retries 0 c good
            | false ↦ good
          ]
