-- ===== src/Outcome/Returned.antt =====
-- The persistence of an outcome on a database that is locked for a while.
use binance_future_agent.Base.{
  ℕ, ◌+◌, ◌≤◌, ◌<◌, true, none, some, arith, List, [], ◌∷◌, ◌≡◌, refl, ap, length, contains, ◌==◌,
  Option-cases, inl, inr,
}
use binance_future_agent.EventStore.{
  Artifact, Attempt, Connection, locked, insert_artifact, lock_retries, category_tables,
}
use binance_future_agent.EventStore.Atomic.{IsClean}
use binance_future_agent.EventStore.Retried.{first_fault, inserted, insert_artifact-inserted}
use binance_future_agent.Outcome.Defs.{
  Fill, TradeOutcome, Counts, Persisted, Result, done, existing_event_id, fill_ref, outcome_ref,
  fill_artifact, outcome_artifact, after_insert, counted, one_more, one_existing, persist_fills,
  persist_outcome, persist_trade_outcome,
}

-- The database is locked for at most three attempts, and then takes one.
abbrev pub IsTaken : (ℕ → Attempt) → Type 0
IsTaken attempts =
    (k : ℕ) × (k ≤ lock_retries)
    × ((i : ℕ) → i < k → first_fault (attempts i) ≡ some locked)
    × (first_fault (attempts k) ≡ none)

taken-inserted :
    (attempts : ℕ → Attempt) (a : Artifact) (c : Connection)
    → IsClean c
    → IsTaken attempts
    → contains category_tables a.category ≡ true
    → insert_artifact attempts a c ≡ inserted a c
taken-inserted attempts a c clean (k, few, before, fine) known =
    insert_artifact-inserted attempts a c k clean known few before fine

-- The loop returned with a count of every trade, and left no transaction open.
abbrev IsCounted : List Fill → Result Counts × Connection → Type 0
IsCounted trades out =
    (n : Counts) × (d : Connection) × (out ≡ (done n, d))
    × IsClean d
    × (n.fills + n.fills_existing ≡ length trades)

existing-IsCounted :
    (t : Fill) (trades : List Fill) (out : Result Counts × Connection)
    → IsCounted trades out
    → IsCounted (t ∷ trades) (counted one_existing out)
unfolding counted
existing-IsCounted t trades out (n, d, returned, clean, all) =
    (one_existing n, d, ap (counted one_existing) returned, clean, omega arith)

more-IsCounted :
    (t : Fill) (trades : List Fill) (out : Result Counts × Connection)
    → IsCounted trades out
    → IsCounted (t ∷ trades) (counted one_more out)
unfolding counted
more-IsCounted t trades out (n, d, returned, clean, all) =
    (one_more n, d, ap (counted one_more) returned, clean, omega arith)

persist_fills-IsCounted :
    (on_fills : ℕ → ℕ → Attempt) (o : TradeOutcome)
    → ((i : ℕ) → IsTaken (on_fills i))
    → (trades : List Fill) (index : ℕ) (c : Connection) → IsClean c
    → IsCounted trades (persist_fills on_fills o trades index c)
unfolding persist_fills fill_artifact after_insert contains ◌==◌
persist_fills-IsCounted on_fills o taken [] index c clean = (_, c, refl, clean, refl)
persist_fills-IsCounted on_fills o taken (t ∷ trades) index c clean =
    elim (Option-cases (existing_event_id "fills" (fill_ref o t) c.seen.rows)) [
      | inr (id, here) ↦
          rw (here, persist_fills)
            (existing-IsCounted t trades _
              (persist_fills-IsCounted on_fills o taken trades index c clean))
      | inl fresh ↦
          let a = fill_artifact o t in
          rw (fresh, persist_fills, taken-inserted (on_fills index) a c clean (taken index) refl)
            (more-IsCounted t trades _
              (persist_fills-IsCounted on_fills o taken trades (index + 1) (inserted a c).1 refl))
    ]

-- Where no transaction is open, and each insert finds the database locked for at most three
-- attempts, the persistence of an outcome returns, with every fill counted as new or as existing.
pub persist_trade_outcome-returns :
    (on_fills : ℕ → ℕ → Attempt) (on_outcome : ℕ → Attempt) (o : TradeOutcome) (c : Connection)
    → IsClean c
    → ((i : ℕ) → IsTaken (on_fills i))
    → IsTaken on_outcome
    → (p : Persisted) × (d : Connection) × (persist_trade_outcome on_fills on_outcome o c
        ≡ (done p, d))
      × (p.counts.fills + p.counts.fills_existing ≡ length o.trades)
unfolding persist_trade_outcome persist_outcome after_insert outcome_artifact contains ◌==◌
persist_trade_outcome-returns on_fills on_outcome o c clean taken taken_outcome =
    let (n, d, returned, clean_d, all) =
      persist_fills-IsCounted on_fills o taken o.trades 0 c clean in
    elim (Option-cases (existing_event_id "outcomes" (outcome_ref o) d.seen.rows)) [
      | inr (id, here) ↦ (
        record { counts = n; outcomes = id; outcome_inserted = 0 },
        d,
        rw (returned, here, persist_outcome) refl,
        all,
      )
      | inl fresh ↦
          let a = outcome_artifact o in
          (
            record { counts = n; outcomes = d.seen.sequence + 1; outcome_inserted = 1 },
            (inserted a d).1,
            rw
                (
                  returned,
                  fresh,
                  persist_outcome,
                  taken-inserted on_outcome a d clean_d taken_outcome refl,
                )
                refl,
            all,
          )
    ]
