-- ===== src/EventStore/Atomic.antt =====
-- Inserts and the database: what is committed when one succeeds or fails.
use binance_future_agent.Base.{
  Bool, if◌then◌else◌, ℕ, zero, suc, ◌+◌, ◌≡◌, refl, Option, none, some, true, false, contains, ap,
  ◌∙◌, sym, subst,
}
use binance_future_agent.EventStore.Defs.{
  Artifact, Connection, Fault, locked, other_fault, Attempt, Inserted, event_of, failed,
  unknown_category, category_tables, rollback, commit, recorded, insert_steps, left_by,
  insert_artifact_once,
}
use binance_future_agent.EventStore.Retry.{
  retried, insert_with_retry, insert_artifact, lock_retries,
}

-- No transaction is open.
abbrev pub IsClean : Connection → Type 0
IsClean c = c.seen ≡ c.committed

-- An insert that committed both rows of the artifact, under the next identifier, and left no
-- transaction open; or one that failed and left what is committed as it was.
abbrev pub AllOrNothing : Artifact → Connection → Inserted × Connection → Type 0
AllOrNothing a c (event_of id, c') =
    (id ≡ c.committed.sequence + 1) × (c'.committed ≡ recorded a c.committed) × IsClean c'
AllOrNothing a c (failed f, c') = c'.committed ≡ c.committed
AllOrNothing a c (unknown_category, c') = c' ≡ c

steps-AllOrNothing :
    (a : Artifact) (on_event on_row on_commit : Option Fault) (c : Connection)
    → IsClean c
    → AllOrNothing a c (insert_steps a on_event on_row on_commit c)
unfolding insert_steps commit recorded
steps-AllOrNothing a (some f) on_row on_commit c clean = refl
steps-AllOrNothing a none (some f) on_commit c clean = refl
steps-AllOrNothing a none none (some f) c clean = refl
steps-AllOrNothing a none none none c clean =
    (ap (λ db. db.sequence + 1) clean, ap (recorded a) clean, refl)

left_by-AllOrNothing :
    (rolled_back : Bool) (a : Artifact) (c : Connection) (out : Inserted × Connection)
    → AllOrNothing a c out
    → AllOrNothing a c (left_by rolled_back out)
unfolding left_by rollback
left_by-AllOrNothing rolled_back a c (event_of id, d) done = done
left_by-AllOrNothing rolled_back a c (unknown_category, d) done = done
left_by-AllOrNothing true a c (failed f, d) done = done
left_by-AllOrNothing false a c (failed f, d) done = done

once-AllOrNothing :
    (attempt : Attempt) (a : Artifact) (c : Connection)
    → IsClean c
    → AllOrNothing a c (insert_artifact_once attempt a c)
unfolding insert_artifact_once
once-AllOrNothing attempt a c clean =
    left_by-AllOrNothing attempt.rolled_back a c
      (insert_steps a attempt.on_event attempt.on_row attempt.on_commit c)
      (steps-AllOrNothing a attempt.on_event attempt.on_row attempt.on_commit c clean)

-- Going back after a fault undoes the attempt.
pub rollback_lem : (c d : Connection) → IsClean c → d.committed ≡ c.committed → rollback d ≡ c
unfolding rollback
rollback_lem c d clean same = λ i. record { committed = same i; seen = (same ∙ sym clean) i }

-- What `insert_with_retry` makes of an attempt.
retry-AllOrNothing :
    (a : Artifact) (c : Connection) (again : Connection → Inserted × Connection)
    → IsClean c
    → AllOrNothing a c (again c)
    → (out : Inserted × Connection) → AllOrNothing a c out
    → AllOrNothing a c (retried again out)
unfolding retried
retry-AllOrNothing a c again clean next (event_of id, d) done = done
retry-AllOrNothing a c again clean next (unknown_category, d) done = done
retry-AllOrNothing a c again clean next (failed other_fault, d) done = done
retry-AllOrNothing a c again clean next (failed locked, d) done =
    subst (λ e. AllOrNothing a c (again e)) (sym (rollback_lem c d clean done)) next

retries-AllOrNothing :
    (attempts : ℕ → Attempt) (a : Artifact) (left index : ℕ) (c : Connection)
    → IsClean c
    → AllOrNothing a c (insert_with_retry attempts a left index c)
unfolding insert_with_retry
retries-AllOrNothing attempts a zero index c clean = once-AllOrNothing (attempts index) a c clean
retries-AllOrNothing attempts a (suc left) index c clean =
    retry-AllOrNothing a c (insert_with_retry attempts a left (index + 1)) clean
      (retries-AllOrNothing attempts a left (index + 1) c clean)
      (insert_artifact_once (attempts index) a c) (once-AllOrNothing (attempts index) a c clean)

-- An insert of a category that there is returns the identifier it committed both rows under, or
-- raises a fault and leaves what is committed as it was; of another category it changes nothing.
pub insert_artifact-AllOrNothing :
    (attempts : ℕ → Attempt) (a : Artifact) (c : Connection)
    → IsClean c
    → AllOrNothing a c (insert_artifact attempts a c)
unfolding insert_artifact
insert_artifact-AllOrNothing attempts a c clean =
    elim (contains category_tables a.category)
      as (λ b.
        AllOrNothing a c
          (if b then insert_with_retry attempts a lock_retries 0 c else (unknown_category, c))) [
            | true ↦ retries-AllOrNothing attempts a lock_retries 0 c clean
            | false ↦ refl
          ]
