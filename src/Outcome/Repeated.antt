-- ===== src/Outcome/Repeated.antt =====
-- The persistence of an outcome, done again.
use binance_future_agent.Base.{
  ℕ, ◌+◌, String, Option, none, some, arith, List, [], ◌∷◌, ◌≡◌, refl, sym, ap, ◌∙◌, All, length,
  ==_refl, Option-cases, inl, inr,
}
use binance_future_agent.EventStore.{
  Artifact, Attempt, Connection, Inserted, event_of, failed, unknown_category, category_row,
  insert_row, insert_event, recorded, insert_artifact,
}
use binance_future_agent.EventStore.Atomic.{IsClean, AllOrNothing, insert_artifact-AllOrNothing}
use binance_future_agent.Outcome.Defs.{
  Fill, TradeOutcome, Counts, Persisted, Result, done, raised, has_ref, existing_event_id, fill_ref,
  outcome_ref, fill_artifact, outcome_artifact, after_insert, counted, one_more, one_existing,
  persist_fills, persist_outcome, persist_trade_outcome,
}

abbrev found : String → String → Connection → Option ℕ
found category ref c = existing_event_id category ref c.seen.rows

abbrev IsStored : String → String → Connection → Type 0
IsStored category ref c = (id : ℕ) × (found category ref c ≡ some id)

-- What is found on the one connection is found on the other.
abbrev IsKept : Connection → Connection → Type 0
IsKept c d =
    (category ref : String) (id : ℕ)
    → found category ref c ≡ some id
    → found category ref d ≡ some id

-- An insert that returned keeps what was found, and its own row is found where none was.
after_rows :
    (a : Artifact) (id : ℕ) (c d : Connection)
    → IsClean c
    → AllOrNothing a c (event_of id, d)
    → d.seen.rows ≡ category_row a (c.seen.sequence + 1) ∷ c.seen.rows
unfolding recorded insert_row insert_event
after_rows a id c d clean (_, committed, clean_after) =
    ap (λ db. db.rows) (clean_after ∙ committed ∙ ap (recorded a) (sym clean))

insert-IsKept :
    (a : Artifact) (id : ℕ) (c d : Connection)
    → IsClean c
    → AllOrNothing a c (event_of id, d)
    → IsKept c d
unfolding existing_event_id
insert-IsKept a id c d clean stored category ref old there =
    rw (after_rows a id c d clean stored, there) refl

insert-IsStored :
    (a : Artifact) (ref : String) (id : ℕ) (c d : Connection)
    → IsClean c
    → AllOrNothing a c (event_of id, d)
    → a.ref_id ≡ some ref
    → found a.category ref c ≡ none
    → found a.category ref d ≡ some (c.seen.sequence + 1)
unfolding existing_event_id has_ref category_row
insert-IsStored a ref id c d clean stored named fresh =
    rw (after_rows a id c d clean stored, fresh, ==_refl a.category, named, ==_refl ref) refl

-- The fills are stored, and nothing is lost, where the loop returned.
abbrev IsFilled : TradeOutcome → List Fill → Connection → Result Counts × Connection → Type 0
IsFilled o trades c (raised e, d) = Unit
IsFilled o trades c (done n, d) =
    IsClean d × IsKept c d × All (λ t. IsStored "fills" (fill_ref o t) d) trades

counted-IsFilled :
    (o : TradeOutcome) (t : Fill) (trades : List Fill) (f : Counts → Counts) (c d : Connection)
    → IsKept c d
    → IsStored "fills" (fill_ref o t) d
    → (out : Result Counts × Connection) → IsFilled o trades d out
    → IsFilled o (t ∷ trades) c (counted f out)
unfolding counted
counted-IsFilled o t trades f c d kept stored (raised e, d') filled = tt
counted-IsFilled o t trades f c d kept (id, here) (done n, d') (clean, later, all) = (
  clean,
  λ category ref old there. later category ref old (kept category ref old there),
  ((id, later _ _ id here), all),
)

after-IsFilled :
    (o : TradeOutcome) (t : Fill) (trades : List Fill) (c : Connection)
    (next : ℕ → Connection → Result Counts × Connection)
    → IsClean c
    → found "fills" (fill_ref o t) c ≡ none
    → ((id : ℕ) (d : Connection) → IsClean d → IsFilled o trades d (next id d))
    → (out : Inserted × Connection) → AllOrNothing (fill_artifact o t) c out
    → IsFilled o (t ∷ trades) c (after_insert (λ id d. counted one_more (next id d)) out)
unfolding after_insert fill_artifact
after-IsFilled o t trades c next clean fresh then_filled (failed fault, d) stored = tt
after-IsFilled o t trades c next clean fresh then_filled (unknown_category, d) stored = tt
after-IsFilled o t trades c next clean fresh then_filled (event_of id, d) stored =
    let a = fill_artifact o t in
    counted-IsFilled o t trades one_more c d (insert-IsKept a id c d clean stored)
      (_, insert-IsStored a (fill_ref o t) id c d clean stored refl fresh) (next id d)
      (then_filled id d stored.2)

persist_fills-IsFilled :
    (attempts : ℕ → ℕ → Attempt) (o : TradeOutcome) (trades : List Fill) (index : ℕ)
    (c : Connection)
    → IsClean c
    → IsFilled o trades c (persist_fills attempts o trades index c)
unfolding persist_fills
persist_fills-IsFilled attempts o [] index c clean = (clean, λ category ref id there. there, tt)
persist_fills-IsFilled attempts o (t ∷ trades) index c clean =
    elim (Option-cases (found "fills" (fill_ref o t) c)) [
      | inr (id, here) ↦
          rw (here, persist_fills)
            (counted-IsFilled o t trades one_existing c c (λ category ref old there. there)
              (id, here) (persist_fills attempts o trades index c)
              (persist_fills-IsFilled attempts o trades index c clean))
      | inl fresh ↦
          rw (fresh, persist_fills)
            (after-IsFilled o t trades c (λ id d. persist_fills attempts o trades (index + 1) d)
              clean fresh
              (λ id d clean_d. persist_fills-IsFilled attempts o trades (index + 1) d clean_d)
              (insert_artifact (attempts index) (fill_artifact o t) c)
              (insert_artifact-AllOrNothing (attempts index) (fill_artifact o t) c clean))
    ]

-- Fills that are stored are counted and left alone.
persist_fills-stored :
    (attempts : ℕ → ℕ → Attempt) (o : TradeOutcome) (trades : List Fill) (index : ℕ)
    (c : Connection)
    → All (λ t. IsStored "fills" (fill_ref o t) c) trades
    → persist_fills attempts o trades index c
      ≡ (done (record { fills = 0; fills_existing = length trades }), c)
unfolding persist_fills counted
persist_fills-stored attempts o [] index c all = refl
persist_fills-stored attempts o (t ∷ trades) index c ((id, here), all) =
    let more : length trades + 1 ≡ length (t ∷ trades) = omega arith in
    rw (here, persist_fills, persist_fills-stored attempts o trades index c all)
      (ap (λ n. (done (record { fills = 0; fills_existing = n }), c)) more)

-- What is persisted again is only counted.
abbrev again : TradeOutcome → ℕ → Persisted
again o id = record {
  counts = record { fills = 0; fills_existing = length o.trades };
  outcomes = id;
  outcome_inserted = 0;
}

-- Where an outcome was persisted, persisting it again meets no insert, gives the same event, and
-- leaves the connection as it is.
abbrev pub IsRepeatable :
    (ℕ → ℕ → Attempt) → (ℕ → Attempt) → TradeOutcome → Result Persisted × Connection → Type 0
IsRepeatable on_fills on_outcome o (raised e, d) = Unit
IsRepeatable on_fills on_outcome o (done p, d) =
    persist_trade_outcome on_fills on_outcome o d ≡ (done (again o p.outcomes), d)

fills_stay :
    (o : TradeOutcome) (c d : Connection)
    → IsKept c d
    → (trades : List Fill) → All (λ t. IsStored "fills" (fill_ref o t) c) trades
    → All (λ t. IsStored "fills" (fill_ref o t) d) trades
fills_stay o c d kept [] all = tt
fills_stay o c d kept (t ∷ trades) ((id, here), all) =
    ((id, kept _ _ id here), fills_stay o c d kept trades all)

repeated :
    (on_fills : ℕ → ℕ → Attempt) (on_outcome : ℕ → Attempt) (o : TradeOutcome) (d : Connection)
    (id : ℕ)
    → All (λ t. IsStored "fills" (fill_ref o t) d) o.trades
    → found "outcomes" (outcome_ref o) d ≡ some id
    → persist_trade_outcome on_fills on_outcome o d ≡ (done (again o id), d)
unfolding persist_trade_outcome persist_outcome
repeated on_fills on_outcome o d id all here =
    rw (persist_fills-stored on_fills o o.trades 0 d all, here, persist_outcome) refl

inserted-IsRepeatable :
    (on_fills : ℕ → ℕ → Attempt) (on_outcome : ℕ → Attempt) (o : TradeOutcome) (n : Counts)
    (c : Connection)
    → IsClean c
    → All (λ t. IsStored "fills" (fill_ref o t) c) o.trades
    → found "outcomes" (outcome_ref o) c ≡ none
    → (out : Inserted × Connection) → AllOrNothing (outcome_artifact o) c out
    → IsRepeatable on_fills on_outcome o (
        after_insert
          (λ id d. (done (record { counts = n; outcomes = id; outcome_inserted = 1 }), d))
          out)
unfolding after_insert outcome_artifact
inserted-IsRepeatable on_fills on_outcome o n c clean all fresh (failed fault, d) stored = tt
inserted-IsRepeatable on_fills on_outcome o n c clean all fresh (unknown_category, d) stored = tt
inserted-IsRepeatable on_fills on_outcome o n c clean all fresh (event_of id, d) stored =
    let a = outcome_artifact o in
    let numbered : c.seen.sequence + 1 ≡ id = rw clean (sym stored.0) in
    repeated on_fills on_outcome o d id
      (fills_stay o c d (insert-IsKept a id c d clean stored) o.trades all)
      (insert-IsStored a (outcome_ref o) id c d clean stored refl fresh ∙ ap some numbered)

outcome-IsRepeatable :
    (on_fills again_fills : ℕ → ℕ → Attempt) (on_outcome again_outcome : ℕ → Attempt)
    (o : TradeOutcome) (c : Connection) (out : Result Counts × Connection)
    → IsFilled o o.trades c out
    → IsRepeatable again_fills again_outcome o (persist_outcome on_outcome o out)
unfolding persist_outcome
outcome-IsRepeatable on_fills again_fills on_outcome again_outcome o c (raised e, d) filled = tt
outcome-IsRepeatable on_fills again_fills on_outcome again_outcome o c (done n, d)
      (clean, kept, all) =
    elim (Option-cases (found "outcomes" (outcome_ref o) d)) [
      | inr (id, here) ↦
          rw (here, persist_outcome) (repeated again_fills again_outcome o d id all here)
      | inl fresh ↦
          rw (fresh, persist_outcome)
            (inserted-IsRepeatable again_fills again_outcome o n d clean all fresh
              (insert_artifact on_outcome (outcome_artifact o) d)
              (insert_artifact-AllOrNothing on_outcome (outcome_artifact o) d clean))
    ]

-- Where no transaction is open, an outcome that was persisted is there to stay: persisting it again
-- inserts nothing, whatever SQLite would refuse, counts every fill as existing, gives the same event
-- of the outcome, and leaves the connection as it is.
pub persist_trade_outcome-IsRepeatable :
    (on_fills again_fills : ℕ → ℕ → Attempt) (on_outcome again_outcome : ℕ → Attempt)
    (o : TradeOutcome) (c : Connection)
    → IsClean c
    → IsRepeatable again_fills again_outcome o (persist_trade_outcome on_fills on_outcome o c)
unfolding persist_trade_outcome
persist_trade_outcome-IsRepeatable on_fills again_fills on_outcome again_outcome o c clean =
    outcome-IsRepeatable on_fills again_fills on_outcome again_outcome o c
      (persist_fills on_fills o o.trades 0 c) (persist_fills-IsFilled on_fills o o.trades 0 c clean)
