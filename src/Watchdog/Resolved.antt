-- ===== src/Watchdog/Resolved.antt =====
-- What a check leaves pending: a settled order is not loaded again, and every other one is.
use binance_future_agent.Base.{
  ℕ, String, Bool, true, false, not, ◌&&◌, ◌||◌, Option, none, some, List, [], ◌∷◌, ◌≡◌, refl, sym,
  ap, ◌∙◌, select, select-append, any, arith, if◌then◌else◌, ◌==◌, Bool-cases, or_default, inl, inr,
}
use binance_future_agent.Base.Float.{Float}
use binance_future_agent.Base.Json.{Json, Dict, get, text_or_blank, truthy, text, find}
use binance_future_agent.Base.Sort.{insert_by, sort_by}
use binance_future_agent.Models.{OrderIntent, RiskDecision}
use binance_future_agent.Models.Payload.{intent_from_payload}
use binance_future_agent.Watchdog.Tables.{
  ResponseRow, IntentRow, Ledger, PendingOrder, settles, names, is_resolved, has_closed_outcome,
  is_open, limit_order, read_order, pending_of, joined, pending_orders, row_before, load_pending,
  persist_intent,
}

-- The one verdict of a response on all the orders of a row.
abbrev settled_by : ResponseRow → ℕ → Bool
settled_by row id = settles row.watchdog_status && names id row.pending_intent_event_id

still_open : (s a c : Bool) → (not (s || a) && not c) ≡ (not s && (not a && not c))
still_open true a c = refl
still_open false a c = refl

some_inj : {A : Type 0} (xs ys : List A) → some xs ≡ some ys → xs ≡ ys
some_inj xs ys = ap (λ o. or_default o xs)

module _ {fl : Float} where
  -- The pending orders that a response does not settle.
  abbrev pub unsettled : ResponseRow → List (PendingOrder fl) → List (PendingOrder fl)
  unsettled row =
      select
        (λ p. not (settles row.watchdog_status && names p.event_id row.pending_intent_event_id))

  joined-nothing : (rest : Option (List (PendingOrder fl))) → joined (some []) rest ≡ rest
  unfolding joined
  joined-nothing none = refl
  joined-nothing (some ps) = refl

  passed_over :
      (open_row : Bool) (rest : Option (List (PendingOrder fl)))
      → (if open_row then joined (some []) rest else rest) ≡ rest
  passed_over true rest = joined-nothing rest
  passed_over false rest = refl

  -- A row that is no pending entry adds nothing.
  pending-insert_by :
      (responses : List ResponseRow) (closed : List String) (row : IntentRow fl)
      → (rows : List (IntentRow fl)) → pending_of row ≡ some []
      → pending_orders responses closed (insert_by row_before row rows)
        ≡ pending_orders responses closed rows
  unfolding pending_orders insert_by
  pending-insert_by responses closed row [] h = rw h (passed_over _ (some []))
  pending-insert_by responses closed row (r ∷ rows) h = elim (Bool-cases (row_before r row)) [
    | inl before ↦ rw before (
        ap (λ rest. if is_open responses closed r then joined (pending_of r) rest else rest)
          (pending-insert_by responses closed row rows h))
    | inr after ↦ rw (after, h) (passed_over _ _)
  ]

  not_pending :
      (status : String) (rest : Dict fl) (id : ℕ) (occurred_at : String)
      → (status == "entry_order_pending") ≡ false
      → pending_of (record {
        event_id = id;
        occurred_at = occurred_at;
        payload = Dict.field "status" (Json.str status) rest;
      })
        ≡ some []
  unfolding pending_of text_or_blank truthy text find ◌==◌
  not_pending String.[] rest id occurred_at h = refl
  not_pending (String.◌∷◌ c s) rest id occurred_at h = rw h refl

  pub load-persist_intent :
      (intent : OrderIntent fl) (status : String) (risk : RiskDecision) (ledger : Ledger fl)
      → (status == "entry_order_pending") ≡ false
      → load_pending (persist_intent intent status risk ledger) ≡ load_pending ledger
  unfolding load_pending persist_intent sort_by
  load-persist_intent intent status risk ledger h =
      pending-insert_by ledger.responses ledger.closed _ (sort_by row_before ledger.intents)
        (not_pending status _ _ _ h)

  -- The orders of a row that a response does not settle.
  unsettled-limit_order :
      (row : ResponseRow) (r : IntentRow fl) (intent : OrderIntent fl)
      → unsettled row (limit_order r intent) ≡ (
          if settles row.watchdog_status && names r.event_id row.pending_intent_event_id
          then []
          else limit_order r intent)
  unfolding limit_order select
  unsettled-limit_order row r intent = ground arith

  joined-unsettled :
      (row : ResponseRow) (these these' : Option (List (PendingOrder fl)))
      → (rest rest' : Option (List (PendingOrder fl))) (ps : List (PendingOrder fl))
      → joined these rest ≡ some ps
      → ((ts : List (PendingOrder fl)) → these ≡ some ts → these' ≡ some (unsettled row ts))
      → ((qs : List (PendingOrder fl)) → rest ≡ some qs → rest' ≡ some (unsettled row qs))
      → joined these' rest' ≡ some (unsettled row ps)
  unfolding joined
  joined-unsettled row none these' rest rest' ps h k l = cc
  joined-unsettled row (some ts) these' none rest' ps h k l = cc
  joined-unsettled row (some ts) these' (some qs) rest' ps h k l =
      rw (k ts refl, l qs refl)
        (sym (
          ap (λ o. elim o [ none ↦ none | some xs ↦ some (unsettled row xs) ]) (sym h)
          ∙ ap some (select-append _ ts qs)))

  nothing-unsettled :
      (row : ResponseRow) (settled : Bool) (ts : List (PendingOrder fl))
      → some [] ≡ some ts
      → unsettled row ts ≡ (if settled then [] else ts)
  unfolding select
  nothing-unsettled row true ts h = ap (unsettled row) (sym (some_inj [] ts h))
  nothing-unsettled row false ts h = ap (unsettled row) (sym (some_inj [] ts h)) ∙ some_inj [] ts h

  order-unsettled :
      (row : ResponseRow) (r : IntentRow fl) (o : Option (OrderIntent fl))
      (ts : List (PendingOrder fl))
      → (elim o [ none ↦ none | some intent ↦ some (limit_order r intent) ]) ≡ some ts
      → unsettled row ts ≡ (if settled_by row r.event_id then [] else ts)
  order-unsettled row r none ts h = cc
  order-unsettled row r (some intent) ts h =
      let same = some_inj (limit_order r intent) ts h in
      ap (unsettled row) (sym same)
      ∙ unsettled-limit_order row r intent
      ∙ ap (λ xs. if settled_by row r.event_id then [] else xs) same

  read_order-unsettled :
      (row : ResponseRow) (r : IntentRow fl) (v : Json fl) (ts : List (PendingOrder fl))
      → read_order r v ≡ some ts
      → unsettled row ts ≡ (if settled_by row r.event_id then [] else ts)
  unfolding read_order
  read_order-unsettled row r (Json.obj d) ts h = order-unsettled row r (intent_from_payload d) ts h
  read_order-unsettled row r _ ts h = nothing-unsettled row (settled_by row r.event_id) ts h

  pending_of-unsettled :
      (row : ResponseRow) (r : IntentRow fl) (ts : List (PendingOrder fl))
      → pending_of r ≡ some ts
      → unsettled row ts ≡ (if settled_by row r.event_id then [] else ts)
  unfolding pending_of
  pending_of-unsettled row r ts h =
      elim (Bool-cases (text_or_blank (get r.payload "status") == "entry_order_pending")) [
        | inl pending ↦ read_order-unsettled row r (get r.payload "intent") ts (rw pending at h)
        | inr other ↦ nothing-unsettled row (settled_by row r.event_id) ts (rw other at h)
      ]

  row-unsettled :
      (row : ResponseRow) (open_row settled : Bool)
      (these rest rest' : Option (List (PendingOrder fl)))
      → (ps : List (PendingOrder fl)) → (if open_row then joined these rest else rest) ≡ some ps
      → ((ts : List (PendingOrder fl))
          → these ≡ some ts
          → unsettled row ts ≡ (if settled then [] else ts))
      → ((qs : List (PendingOrder fl)) → rest ≡ some qs → rest' ≡ some (unsettled row qs))
      → (if not settled && open_row then joined these rest' else rest') ≡ some (unsettled row ps)
  row-unsettled row false true these rest rest' ps h k l = l ps h
  row-unsettled row false false these rest rest' ps h k l = l ps h
  row-unsettled row true false these rest rest' ps h k l =
      joined-unsettled row these these rest rest' ps h (λ ts e. e ∙ ap some (sym (k ts e))) l
  row-unsettled row true true these rest rest' ps h k l =
      sym (joined-nothing rest')
      ∙ joined-unsettled row these (some []) rest rest' ps h (λ ts e. ap some (sym (k ts e))) l

  -- Persisting a response leaves pending what it does not settle.
  pub pending-persist_response :
      (row : ResponseRow) (responses : List ResponseRow) (closed : List String)
      → (rows : List (IntentRow fl)) (ps : List (PendingOrder fl))
      → pending_orders responses closed rows ≡ some ps
      → pending_orders (row ∷ responses) closed rows ≡ some (unsettled row ps)
  unfolding pending_orders is_open is_resolved any select
  pending-persist_response row responses closed [] ps h =
      ap (λ xs. some (unsettled row xs)) (some_inj [] ps h)
  pending-persist_response row responses closed (r ∷ rows) ps h =
      let rest = pending_orders (row ∷ responses) closed rows in
      ap (λ b. if b then joined (pending_of r) rest else rest)
        (still_open (settled_by row r.event_id) (is_resolved responses r.event_id)
          (has_closed_outcome closed r.event_id))
      ∙ row-unsettled row (is_open responses closed r) (settled_by row r.event_id) (pending_of r)
          (pending_orders responses closed rows) rest ps h (pending_of-unsettled row r)
          (pending-persist_response row responses closed rows)
