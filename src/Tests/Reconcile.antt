-- ===== src/Tests/Reconcile.antt =====
-- A reconciliation of two local intents with two open orders, of which one is known.
use binance_future_agent.Base.{◌+◌, String, Bool, true, not, List, [], ◌∷◌, ◌≡◌, map, count, select}
use binance_future_agent.Base.Int.{pos}
use binance_future_agent.Base.Fixed.{fixed}
use binance_future_agent.Base.Json.{Json, Dict}
use binance_future_agent.Reconcile.{LocalIntent, report_of}
use binance_future_agent.Reconcile.Partition.{is_known, report_of-sorts}
use binance_future_agent.Tests.Data.{intent}

abbrev first : LocalIntent fixed
first = record {
  event_id = 1;
  status = "submitted";
  intent = intent;
  client_order_id = "bfa-btcusdt-20260101000000";
}

abbrev second : LocalIntent fixed
second = record first { event_id = 2; client_order_id = "bfa-btcusdt-20260101000100" }

abbrev order : String → Dict fixed
order id =
    Dict.field "clientOrderId" (Json.str id) (Dict.field "orderId" (Json.int (pos 7)) Dict.end)

abbrev orders : List (Dict fixed)
orders = order "bfa-btcusdt-20260101000000" ∷ order "bfa-btcusdt-20260101000000-r1" ∷ []

abbrev any_intent : LocalIntent fixed → Bool
any_intent local = true

report_of-sorts_example :
    (count any_intent (map (λ m. m.0) (report_of orders [] (first ∷ second ∷ [])).matched)
        + count any_intent (report_of orders [] (first ∷ second ∷ [])).missing_on_exchange
      ≡ count any_intent (first ∷ second ∷ []))
    × ((report_of orders [] (first ∷ second ∷ [])).unknown_on_exchange
        ≡ select (λ o. not (is_known (first ∷ second ∷ []) o)) orders)
report_of-sorts_example = report_of-sorts orders [] (first ∷ second ∷ []) any_intent
