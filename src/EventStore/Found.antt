-- ===== src/EventStore/Found.antt =====
-- Inserts and queries together: what a query finds after an insert.
use binance_future_agent.Base.{
  ℕ, ◌+◌, ◌≡◌, ◌∷◌, Bool, if◌then◌else◌, count, ◌&&◌, String, Option, ◌∙◌, sym, ap, subst, select,
}
use binance_future_agent.Base.Sort.{count-sort_by}
use binance_future_agent.EventStore.Defs.{
  Artifact, Attempt, Event, Connection, event_of, event_row, recorded, insert_event, insert_row,
}
use binance_future_agent.EventStore.Retry.{insert_artifact}
use binance_future_agent.EventStore.Query.{comes_before, in_range, events_between}
use binance_future_agent.EventStore.Atomic.{IsClean, AllOrNothing, insert_artifact-AllOrNothing}
use binance_future_agent.EventStore.Order.{count-select}

count-events_between :
    (start end_at : String) (symbol : Option String) (c : Connection) (p : Event → Bool)
    → count p (events_between start end_at symbol c)
      ≡ count (λ e. in_range start end_at symbol e && p e) c.seen.events
unfolding events_between
count-events_between start end_at symbol c p =
    let found = select (in_range start end_at symbol) c.seen.events in
    count-sort_by comes_before p found ∙ count-select p (in_range start end_at symbol) c.seen.events

-- What is seen after an insert that returned.
seen-insert_artifact :
    (attempts : ℕ → Attempt) (a : Artifact) (c c' : Connection) (id : ℕ)
    → IsClean c
    → insert_artifact attempts a c ≡ (event_of id, c')
    → c'.seen.events ≡ event_row a id ∷ c.seen.events
unfolding recorded insert_event insert_row
seen-insert_artifact attempts a c c' id clean inserted =
    let done : AllOrNothing a c (event_of id, c') =
      subst (AllOrNothing a c) inserted (insert_artifact-AllOrNothing attempts a c clean) in
    ap (λ db. db.events) (done.2 ∙ done.1)
    ∙ (λ i. event_row a (sym done.0 i) ∷ (sym clean i).events)

-- After an insert that returned, a query finds the new event besides what it found before, if the event is in its range.
pub events_between-insert_artifact :
    (attempts : ℕ → Attempt) (a : Artifact) (c c' : Connection) (id : ℕ)
    → (start end_at : String) (symbol : Option String) (p : Event → Bool) → IsClean c
    → insert_artifact attempts a c ≡ (event_of id, c')
    → count p (events_between start end_at symbol c')
      ≡ (if in_range start end_at symbol (event_row a id) && p (event_row a id) then 1 else 0)
        + count p (events_between start end_at symbol c)
unfolding count
events_between-insert_artifact attempts a c c' id start end_at symbol p clean inserted =
    count-events_between start end_at symbol c' p
    ∙ ap (count (λ e. in_range start end_at symbol e && p e))
        (seen-insert_artifact attempts a c c' id clean inserted)
    ∙ ap
        (λ n.
          (if in_range start end_at symbol (event_row a id) && p (event_row a id) then 1 else 0)
          + n)
        (sym (count-events_between start end_at symbol c p))
