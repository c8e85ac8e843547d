-- ===== src/Reconcile/Defs.antt =====
-- src/bfa/execution/reconcile.py: `reconcile_exchange_state`. The replies of the exchange are given;
-- the summaries of an intent and of an order stand for the intent and the order themselves.
use binance_future_agent.Base.{
  ℕ, String, Bool, true, false, not, ◌&&◌, ◌||◌, Option, none, some, List, [], ◌∷◌, ◌++◌, dedupe,
  text_lt, select, length, contains, ◌==◌, if◌then◌else◌, or_default, is_none,
}
use binance_future_agent.Base.Float.{Float}
use binance_future_agent.Base.Text.{upper, is_blank}
use binance_future_agent.Base.Json.{Json, Dict, find, get, float, int_of, text, truthy, text_at}
use binance_future_agent.Base.Sort.{sort_by}
use binance_future_agent.Config.{parse_mode}
use binance_future_agent.Models.{OrderIntent}
use binance_future_agent.Models.Payload.{texts_at}
use binance_future_agent.Watchdog.{intent_client_order_id}

module _ (fl : Float) where
  -- A row of `order_intents`.
  pub record LocalRow : Type 0 where
    pub event_id : ℕ
    pub symbol : Option String
    pub payload : Dict fl

  -- `LocalOrderIntent`
  pub record LocalIntent : Type 0 where
    pub event_id : ℕ
    pub status : String
    pub intent : OrderIntent fl
    pub client_order_id : String

  -- How a local intent was matched: with the identifier of the exchange's order, or by a position.
  pub data MatchType : Type 0 where
    open_order : Json fl → MatchType
    by_position : MatchType

  -- `ReconciliationReport`
  pub record Reconciliation : Type 0 where
    pub matched : List (LocalIntent × MatchType)
    pub missing_on_exchange : List LocalIntent
    pub unknown_on_exchange : List (Dict fl)
    pub position_symbols : List String
    pub local_intent_count : ℕ
    pub open_order_count : ℕ

  -- What the loop over the local intents has found so far.
  pub record Sorted : Type 0 where
    pub matched : List (LocalIntent × MatchType)
    pub missing : List LocalIntent
    pub matched_ids : List String

abbrev pub same_id : Option String → String → Bool
same_id none id = false
same_id (some other) id = other == id

unfoldable pub not_in : List String → Option String → Bool
not_in ids none = true
not_in ids (some id) = not (contains ids id)

infixl 5 ◌>>?◌
abbrev pub ◌>>?◌ : {A B : Type 0} → Option A → (A → Option B) → Option B
none >>? f = none
some a >>? f = f a

module _ {fl : Float} where
  open fl use {lt, eq, lit}

  -- `float(payload[key])`; nothing where it raises.
  abbrev number_at : Dict fl → String → Option fl.F
  number_at d k = elim (find d k) [ none ↦ none | some v ↦ float v ]

  abbrev text_needed : Dict fl → String → Option String
  text_needed d k = elim (find d k) [ none ↦ none | some v ↦ some (text v) ]

  -- `dict(payload.get("metadata", {}))`; nothing for what is no dict.
  abbrev metadata_of : Option (Json fl) → Option (Dict fl)
  metadata_of none = some Dict.end
  metadata_of (some (Json.obj d)) = some d
  metadata_of (some _) = none

  -- `_intent_from_payload` of this file; nothing where it raises, or for a mode that is none of the
  -- program's.
  unfoldable pub local_intent_from : Dict fl → Option (OrderIntent fl)
  local_intent_from d = text_needed d "symbol" >>? λ symbol. text_needed d "side" >>? λ side.
      number_at d "quantity" >>? λ quantity. number_at d "notional_usdt" >>? λ notional.
      number_at d "entry_price" >>? λ entry. number_at d "stop_price" >>? λ stop.
      number_at d "target_price" >>? λ target.
      (elim (find d "leverage") [ none ↦ none | some v ↦ int_of v ]) >>? λ leverage.
      (text_needed d "mode" >>? parse_mode) >>? λ mode. text_needed d "decided_at" >>? λ decided_at.
      texts_at d "reason_codes" >>? λ codes. metadata_of (find d "metadata") >>? λ metadata.
      some (record {
        symbol = upper symbol;
        side = upper side;
        quantity = quantity;
        notional_usdt = notional;
        entry_price = entry;
        stop_price = stop;
        target_price = target;
        leverage = leverage;
        mode = mode;
        decided_at = decided_at;
        order_type = elim (find d "order_type") [ none ↦ "MARKET" | some v ↦ text v ];
        time_in_force = none;
        limit_wait_seconds = none;
        reduce_only = truthy (get d "reduce_only");
        reason_codes = codes;
        metadata = metadata;
      })

  -- `WHERE symbol = ?`, where a symbol is asked for.
  unfoldable pub of_symbol : Option String → LocalRow fl → Bool
  of_symbol none row = true
  of_symbol (some wanted) row =
      is_blank wanted || elim row.symbol [ none ↦ false | some s ↦ s == upper wanted ]

  -- The local intent of a payload, if it has one of the statuses; nothing where it cannot be read.
  unfoldable pub local_of : List String → LocalRow fl → Option (List (LocalIntent fl))
  local_of statuses row =
      let status = text_at row.payload "status" in
      if contains statuses status
      then elim (get row.payload "intent") [
        | Json.obj d ↦ local_intent_from d >>? λ intent. some (
            record {
              event_id = row.event_id;
              status = status;
              intent = intent;
              client_order_id = intent_client_order_id intent;
            }
            ∷ [])
        | _ ↦ some []
      ]
      else some []

  -- `_load_local_order_intents`, over the rows by their identifiers.
  unfoldable pub load_local :
      Option String → List String → List (LocalRow fl) → Option (List (LocalIntent fl))
  load_local symbol statuses [] = some []
  load_local symbol statuses (row ∷ rows) =
      let rest = load_local symbol statuses rows in
      if of_symbol symbol row
      then (local_of statuses row >>? λ these. rest >>? λ others. some (these ++ others))
      else rest

  -- `_order_client_id`
  unfoldable pub order_client_id : Dict fl → Option String
  order_client_id order =
      let own = get order "clientOrderId" in
      let new = get order "newClientOrderId" in
      let original = get order "origClientOrderId" in
      if truthy own
      then some (text own)
      else if truthy new
      then some (text new)
      else if truthy original
      then some (text original)
      else none

  -- `open_by_client_id.get(id)`: the last order of that identifier.
  unfoldable pub open_order_of : List (Dict fl) → String → Option (Dict fl)
  open_order_of [] id = none
  open_order_of (order ∷ orders) id =
      let later = open_order_of orders id in
      if is_none later && same_id (order_client_id order) id then some order else later

  -- `_float`
  unfoldable pub position_size : Dict fl → fl.F
  position_size position = or_default (float (get position "positionAmt")) (lit 0 0)

  -- A position that `_active_position_sides` keeps for a symbol.
  unfoldable pub is_active_for : String → Dict fl → Bool
  is_active_for symbol position =
      let own = upper (text_at position "symbol") in
      not (eq (position_size position) (lit 0 0)) && (not (is_blank own) && own == symbol)

  -- `active_positions.get(symbol)`: the side of the last position of the symbol.
  unfoldable pub active_side : List (Dict fl) → String → Option String
  active_side [] symbol = none
  active_side (position ∷ positions) symbol =
      let later = active_side positions symbol in
      if is_none later && is_active_for symbol position
      then some (if lt (lit 0 0) (position_size position) then "BUY" else "SELL")
      else later

  -- `_position_matches_intent`
  unfoldable pub position_matches : List (Dict fl) → OrderIntent fl → Bool
  position_matches positions intent = same_id (active_side positions intent.symbol) intent.side

  -- What becomes of a local intent, from its open order and whether a position matches it.
  unfoldable pub sorted_local : LocalIntent fl → Option (Dict fl) → Bool → Sorted fl → Sorted fl
  sorted_local local (some order) held rest = record rest {
    matched = (local, open_order (get order "orderId")) ∷ rest.matched;
    matched_ids = local.client_order_id ∷ rest.matched_ids;
  }
  sorted_local local none true rest = record rest { matched = (local, by_position) ∷ rest.matched }
  sorted_local local none false rest = record rest { missing = local ∷ rest.missing }

  -- The loop over the local intents.
  unfoldable pub sort_locals : List (Dict fl) → List (Dict fl) → List (LocalIntent fl) → Sorted fl
  sort_locals orders positions [] = record { matched = []; missing = []; matched_ids = [] }
  sort_locals orders positions (local ∷ locals) =
      sorted_local local (open_order_of orders local.client_order_id)
        (position_matches positions local.intent) (sort_locals orders positions locals)

  -- `client_id not in matched_client_ids`
  unfoldable pub is_unknown : List String → Dict fl → Bool
  is_unknown ids order = not_in ids (order_client_id order)

  -- The symbols of the open positions.
  unfoldable pub active_symbols : List (Dict fl) → List String
  active_symbols [] = []
  active_symbols (position ∷ positions) =
      let rest = active_symbols positions in
      let own = upper (text_at position "symbol") in
      if is_active_for own position then own ∷ rest else rest

  -- The report on the local intents that were read.
  unfoldable pub report_of :
      List (Dict fl) → List (Dict fl) → List (LocalIntent fl) → Reconciliation fl
  report_of orders positions locals =
      let sorted = sort_locals orders positions locals in
      record {
        matched = sorted.matched;
        missing_on_exchange = sorted.missing;
        unknown_on_exchange = select (is_unknown sorted.matched_ids) orders;
        position_symbols = sort_by text_lt (dedupe (active_symbols positions));
        local_intent_count = length locals;
        open_order_count = length orders;
      }

  -- `reconcile_exchange_state`, with the replies of the exchange; nothing where it raises.
  unfoldable pub reconcile_exchange_state :
      Option String
      → List String
      → List (LocalRow fl)
      → List (Dict fl)
      → List (Dict fl)
      → Option (Reconciliation fl)
  reconcile_exchange_state symbol statuses rows orders positions =
      load_local symbol statuses rows >>? λ locals. some (report_of orders positions locals)
