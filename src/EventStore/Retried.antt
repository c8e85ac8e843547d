-- ===== src/EventStore/Retried.antt =====
-- The retries of a locked database.
use binance_future_agent.Base.{
  Bool, false, ℕ, zero, suc, ◌+◌, ◌≤◌, ◌<◌, ◌≡◌, refl, ap, ◌∙◌, subst, Option, none, some, true,
  contains, arith,
}
use binance_future_agent.EventStore.Defs.{
  Artifact, Attempt, Fault, locked, other_fault, Connection, Inserted, event_of, failed, recorded,
  insert_steps, left_by, rollback, insert_artifact_once, commit, category_tables,
}
use binance_future_agent.EventStore.Retry.{
  insert_artifact, insert_with_retry, retried, lock_retries,
}
use binance_future_agent.EventStore.Atomic.{IsClean, rollback_lem}

-- The first statement of an attempt that SQLite refuses.
abbrev first_of : Option Fault → Option Fault → Option Fault → Option Fault
first_of (some f) _ _ = some f
first_of none (some f) _ = some f
first_of none none o = o

abbrev pub first_fault : Attempt → Option Fault
first_fault attempt = first_of attempt.on_event attempt.on_row attempt.on_commit

-- The connection after both rows are committed.
abbrev pub inserted : Artifact → Connection → Inserted × Connection
inserted a c = (
  event_of (c.seen.sequence + 1),
  record { committed = recorded a c.seen; seen = recorded a c.seen },
)

at :
    (attempts : ℕ → Attempt) (i j : ℕ) (o : Option Fault)
    → i ≡ j
    → first_fault (attempts i) ≡ o
    → first_fault (attempts j) ≡ o
at attempts i j o same = subst (λ n. first_fault (attempts n) ≡ o) same

steps-inserted :
    (a : Artifact) (e r o : Option Fault) (c : Connection)
    → first_of e r o ≡ none
    → insert_steps a e r o c ≡ inserted a c
unfolding insert_steps commit
steps-inserted a (some f) r o c h = cc
steps-inserted a none (some f) o c h = cc
steps-inserted a none none (some f) c h = cc
steps-inserted a none none none c h = refl

steps-locked :
    (a : Artifact) (e r o : Option Fault) (c : Connection)
    → first_of e r o ≡ some locked
    → (d : Connection) × (insert_steps a e r o c ≡ (failed locked, d)) × (d.committed ≡ c.committed)
unfolding insert_steps commit
steps-locked a (some locked) r o c h = (c, refl, refl)
steps-locked a (some other_fault) r o c h = cc
steps-locked a none (some locked) o c h = (_, refl, refl)
steps-locked a none (some other_fault) o c h = cc
steps-locked a none none (some locked) c h = (_, refl, refl)
steps-locked a none none (some other_fault) c h = cc
steps-locked a none none none c h = cc

once-inserted :
    (attempt : Attempt) (a : Artifact) (c : Connection)
    → first_fault attempt ≡ none
    → insert_artifact_once attempt a c ≡ inserted a c
unfolding insert_artifact_once left_by
once-inserted attempt a c h =
    ap (left_by attempt.rolled_back)
      (steps-inserted a attempt.on_event attempt.on_row attempt.on_commit c h)

left_by-locked :
    (rolled_back : Bool) (c : Connection)
    → (d : Connection) × (left_by rolled_back (failed locked, c) ≡ (failed locked, d))
      × (d.committed ≡ c.committed)
unfolding left_by rollback
left_by-locked true c = (_, refl, refl)
left_by-locked false c = (c, refl, refl)

-- After a locked attempt the loop goes on from the connection that the attempt began with.
once-locked :
    (again : Connection → Inserted × Connection) (attempt : Attempt) (a : Artifact) (c : Connection)
    → IsClean c
    → first_fault attempt ≡ some locked
    → retried again (insert_artifact_once attempt a c) ≡ again c
unfolding insert_artifact_once retried
once-locked again attempt a c clean h =
    let (d, stopped, kept) = steps-locked a attempt.on_event attempt.on_row attempt.on_commit c h in
    let (e, left, same) = left_by-locked attempt.rolled_back d in
    ap (λ out. retried again (left_by attempt.rolled_back out)) stopped
    ∙ ap (retried again) left
    ∙ ap again (rollback_lem c e clean (same ∙ kept))

retries-inserted :
    (attempts : ℕ → Attempt) (a : Artifact) (c : Connection) (left index k : ℕ)
    → IsClean c
    → k ≤ left
    → ((i : ℕ) → i < k → first_fault (attempts (index + i)) ≡ some locked)
    → first_fault (attempts (index + k)) ≡ none
    → insert_with_retry attempts a left index c ≡ inserted a c
unfolding insert_with_retry retried
retries-inserted attempts a c zero index zero clean le before fine =
    once-inserted (attempts index) a c (at attempts (index + zero) index none (omega arith) fine)
retries-inserted attempts a c zero index (suc k) clean le before fine = ground arith
retries-inserted attempts a c (suc left) index zero clean le before fine =
    ap (retried (insert_with_retry attempts a left (index + 1))) (
      once-inserted (attempts index) a c (at attempts (index + zero) index none (omega arith) fine))
retries-inserted attempts a c (suc left) index (suc k) clean le before fine =
    once-locked (insert_with_retry attempts a left (index + 1)) (attempts index) a c clean
      (at attempts (index + zero) index (some locked) (omega arith) (before zero (omega arith)))
    ∙ retries-inserted attempts a c left (index + 1) k clean (omega arith)
        (λ i h.
          at attempts (index + suc i) (index + 1 + i) (some locked) (omega arith)
            (before (suc i) (omega arith)))
        (at attempts (index + suc k) (index + 1 + k) none (omega arith) fine)

-- An insert returns, under the next identifier and with both rows committed, when at most three
-- attempts before the first that SQLite takes find the database locked.
pub insert_artifact-inserted :
    (attempts : ℕ → Attempt) (a : Artifact) (c : Connection) (k : ℕ)
    → IsClean c
    → contains category_tables a.category ≡ true
    → k ≤ lock_retries
    → ((i : ℕ) → i < k → first_fault (attempts i) ≡ some locked)
    → first_fault (attempts k) ≡ none
    → insert_artifact attempts a c ≡ inserted a c
unfolding insert_artifact
insert_artifact-inserted attempts a c k clean known le before fine = rw known (
    retries-inserted attempts a c lock_retries 0 k clean le
      (λ i h. at attempts i (0 + i) (some locked) (omega arith) (before i h))
      (at attempts k (0 + k) none (omega arith) fine))
