-- ===== src/Watchdog/Loaded.antt =====
-- A pending entry that was persisted is what the watchdog loads.
use binance_future_agent.Base.{
  ℕ, ◌+◌, String, Bool, true, false, Option, none, some, List, [], ◌∷◌, ◌++◌, ◌≡◌, refl, ap, ◌∙◌,
  subst, if◌then◌else◌, ◌==◌, Bool-cases, inl, inr, or_default,
}
use binance_future_agent.Base.Float.{Float}
use binance_future_agent.Base.Text.{upper}
use binance_future_agent.Base.Json.{Json, Dict, text_or_blank, truthy, text, find}
use binance_future_agent.Base.Sort.{insert_by, sort_by}
use binance_future_agent.Models.{OrderIntent, RiskDecision}
use binance_future_agent.Models.Payload.{intent_dict, risk_dict}
use binance_future_agent.Models.RoundTrip.{IsWritten, intent_from_payload-intent_dict}
use binance_future_agent.Executor.Protection.{Called}
use binance_future_agent.Watchdog.Tables.{
  ResponseRow, IntentRow, Ledger, PendingOrder, intent_client_order_id, is_open, limit_order,
  read_order, pending_of, joined, pending_orders, row_before, load_pending, persist_intent,
}

module _ {fl : Float} where
  -- The pending order of an intent that was persisted as a pending entry.
  abbrev pub order_of : OrderIntent fl → ℕ → PendingOrder fl
  order_of intent id = record {
    event_id = id;
    occurred_at = intent.decided_at;
    status = "entry_order_pending";
    intent = intent;
    client_order_id = intent_client_order_id intent;
  }

  abbrev pub row_of : OrderIntent fl → RiskDecision → ℕ → IntentRow fl
  row_of intent risk id = record {
    event_id = id;
    occurred_at = intent.decided_at;
    payload = Dict.field "status" (Json.str "entry_order_pending") (
        Dict.field "intent" (Json.obj (intent_dict intent))
          (Dict.field "risk" (Json.obj (risk_dict risk)) Dict.end));
  }

  limit_order-row_of :
      (intent : OrderIntent fl) (risk : RiskDecision) (id : ℕ)
      → upper intent.order_type ≡ "LIMIT"
      → limit_order (row_of intent risk id) intent ≡ order_of intent id ∷ []
  unfolding limit_order text find ◌==◌
  limit_order-row_of intent risk id limit = rw limit refl

  pub pending_of-row_of :
      (intent : OrderIntent fl) (risk : RiskDecision) (id : ℕ)
      → IsWritten fl intent
      → upper intent.order_type ≡ "LIMIT"
      → pending_of (row_of intent risk id) ≡ some (order_of intent id ∷ [])
  unfolding pending_of read_order text_or_blank truthy text find ◌==◌
  pending_of-row_of intent risk id written limit =
      ap
        (λ o. elim o as (λ _. Option (List (PendingOrder fl))) [
          | none ↦ none
          | some i ↦ some (limit_order (row_of intent risk id) i)
        ])
        (intent_from_payload-intent_dict fl intent written)
      ∙ ap some (limit_order-row_of intent risk id limit)

  joined-Called :
      (o : PendingOrder fl) (rest : Option (List (PendingOrder fl))) (qs : List (PendingOrder fl))
      → joined (some (o ∷ [])) rest ≡ some qs
      → Called o qs
  unfolding joined
  joined-Called o none qs h = cc
  joined-Called o (some ps) qs h = subst (Called o) (ap (λ x. or_default x []) h) (inl refl)

  append-Called :
      (o : PendingOrder fl) (xs ys : List (PendingOrder fl)) → Called o ys → Called o (xs ++ ys)
  append-Called o [] ys h = h
  append-Called o (x ∷ xs) ys h = inr (append-Called o xs ys h)

  joined-Called_later :
      (o : PendingOrder fl) (these rest : Option (List (PendingOrder fl)))
      → (qs : List (PendingOrder fl)) → joined these rest ≡ some qs
      → ((ps : List (PendingOrder fl)) → rest ≡ some ps → Called o ps)
      → Called o qs
  unfolding joined
  joined-Called_later o none rest qs h k = cc
  joined-Called_later o (some ts) none qs h k = cc
  joined-Called_later o (some ts) (some ps) qs h k =
      subst (Called o) (ap (λ x. or_default x []) h) (append-Called o ts ps (k ps refl))

  passed-Called :
      (o : PendingOrder fl) (open_row : Bool) (these rest : Option (List (PendingOrder fl)))
      → (qs : List (PendingOrder fl)) → (if open_row then joined these rest else rest) ≡ some qs
      → ((ps : List (PendingOrder fl)) → rest ≡ some ps → Called o ps)
      → Called o qs
  passed-Called o true these rest qs h k = joined-Called_later o these rest qs h k
  passed-Called o false these rest qs h k = k qs h

  pending-Called :
      (responses : List ResponseRow) (closed : List String) (row : IntentRow fl)
      → (o : PendingOrder fl) (rows : List (IntentRow fl)) (qs : List (PendingOrder fl))
      → is_open responses closed row ≡ true
      → pending_of row ≡ some (o ∷ [])
      → pending_orders responses closed (insert_by row_before row rows) ≡ some qs
      → Called o qs
  unfolding pending_orders insert_by
  pending-Called responses closed row o [] qs open_row read h =
      joined-Called o (some []) qs (rw (open_row, read) at h)
  pending-Called responses closed row o (r ∷ rows) qs open_row read h =
      elim (Bool-cases (row_before r row)) [
        | inl before ↦
            passed-Called o (is_open responses closed r) (pending_of r) _ qs (rw before at h)
              (λ ps. pending-Called responses closed row o rows ps open_row read)
        | inr after ↦ joined-Called o _ qs (rw (after, open_row, read) at h)
      ]

  -- A limit entry that was persisted as pending, under an identifier that nothing resolves or
  -- closes, is among the orders that the watchdog loads, with the same intent.
  pub load_pending-Called :
      (intent : OrderIntent fl) (risk : RiskDecision) (ledger : Ledger fl)
      → (qs : List (PendingOrder fl)) → IsWritten fl intent
      → upper intent.order_type ≡ "LIMIT"
      → is_open ledger.responses ledger.closed (row_of intent risk (ledger.sequence + 1)) ≡ true
      → load_pending (persist_intent intent "entry_order_pending" risk ledger) ≡ some qs
      → Called (order_of intent (ledger.sequence + 1)) qs
  unfolding load_pending persist_intent sort_by
  load_pending-Called intent risk ledger qs written limit open_row loaded =
      pending-Called ledger.responses ledger.closed (row_of intent risk (ledger.sequence + 1))
        (order_of intent (ledger.sequence + 1)) (sort_by row_before ledger.intents) qs open_row
        (pending_of-row_of intent risk (ledger.sequence + 1) written limit) loaded
