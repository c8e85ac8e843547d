-- ===== src/Tests/Watchdog.antt =====
-- The watchdog at a limit entry that was filled, on an exchange with its position and no closing
-- orders.
use binance_future_agent.Base.{
  arith, ◌≤◌, ◌≢◌, ◌<>◌, ℕ, ◌+◌, ◌≡◌, refl, List, [], ◌∷◌, true, false, none, some, ◌==◌, any,
  contains, length,
}
use binance_future_agent.Base.Int.{pos}
use binance_future_agent.Base.Fixed.{fixed, fixed_ops}
use binance_future_agent.Base.Text.{len_text, text_ops, upper}
use binance_future_agent.Base.Json.{show_int, Items, Json, Dict, json_ops}
use binance_future_agent.Base.Sort.{insert_by, sort_by}
use binance_future_agent.Models.{RiskDecision}
use binance_future_agent.Models.Payload.{intent_dict, intent_from_payload}
use binance_future_agent.Models.RoundTrip.{IsWritten, intent_from_payload-intent_dict}
use binance_future_agent.Config.{config_ops}
use binance_future_agent.Executor.{
  id_base, client_order_id, accepted_submission, attempt_intent, attempt_id, Outcome, ok, Request,
  query_order, position_risk, Exchange,
}
use binance_future_agent.Executor.Protection.{Called}
use binance_future_agent.Watchdog.{
  intent_client_order_id, Ledger, Desk, WatchReport, load_pending, persist_intent, pending_orders,
  is_open, is_resolved, has_closed_outcome, joined, guard_position, execution_enabled, build_report,
  execute_pending_limit_watchdog, first_items, at_least_zero, not_manual,
}
use binance_future_agent.Watchdog.Observe.{IsObservation, build_report-IsObservation}
use binance_future_agent.Watchdog.Listed.{IsGuarded, guard_position-IsGuarded}
use binance_future_agent.Watchdog.Progress.{left_of, execute-leaves}
use binance_future_agent.Watchdog.Loaded.{order_of, pending_of-row_of, load_pending-Called}
use binance_future_agent.Watchdog.Repriced.{accepted-other_id}
use binance_future_agent.Tests.Data.{exact, btc, intent, live_config}

abbrev accepted_risk : RiskDecision
accepted_risk = record { accepted = true; reason_codes = "risk_accepted" ∷ []; warnings = [] }

written : IsWritten fixed intent
unfolding fixed_ops text_ops
written = record {
  symbol_upper = refl;
  side_upper = refl;
  has_quantity = refl;
  has_entry = refl;
  has_stop = refl;
  has_target = refl;
  has_leverage = refl;
  leverage_exact = refl;
  has_type = refl;
  wait_exact = refl;
}

intent_from_payload-intent_dict_example : intent_from_payload (intent_dict intent) ≡ some intent
intent_from_payload-intent_dict_example = intent_from_payload-intent_dict fixed intent written

abbrev fill : Dict fixed
fill =
    Dict.field "status" (Json.str "FILLED")
      (Dict.field "executedQty" (Json.str "1") (Dict.field "avgPrice" (Json.str "100") Dict.end))

abbrev position : Dict fixed
position = Dict.field "symbol" (Json.str "BTCUSDT") (
    Dict.field "positionAmt" (Json.int (pos 1))
      (Dict.field "positionSide" (Json.str "BOTH") Dict.end))

abbrev answer : Request fixed → Outcome (Dict fixed)
answer (query_order symbol id) = ok fill
answer _ = ok Dict.end

abbrev rows : Request fixed → List (Dict fixed)
rows (position_risk symbol) = position ∷ []
rows _ = []

abbrev filled : Exchange fixed
filled = record { State = ℕ; call = λ r s. (answer r, s); rows = λ r s. (ok (rows r), s) }

abbrev before : Ledger fixed
before = record { intents = []; responses = []; closed = []; sequence = 0 }

abbrev desk : Desk fixed filled
desk = record {
  world = record { state = 0; calls = []; store = [] };
  ledger = persist_intent intent "entry_order_pending" accepted_risk before;
}

is_limit : upper intent.order_type ≡ "LIMIT"
unfolding text_ops
is_limit = refl

loaded : load_pending desk.ledger ≡ some (order_of intent 1 ∷ [])
unfolding load_pending persist_intent sort_by insert_by pending_orders is_open is_resolved
    has_closed_outcome any contains joined
loaded = rw (pending_of-row_of intent accepted_risk 1 written is_limit) refl

load_pending-Called_example : Called (order_of intent 1) (order_of intent 1 ∷ [])
unfolding is_open is_resolved has_closed_outcome any contains
load_pending-Called_example =
    load_pending-Called intent accepted_risk before (order_of intent 1 ∷ []) written is_limit refl
      loaded

execution_off : execution_enabled live_config true ≡ false
unfolding execution_enabled config_ops json_ops text_ops ◌==◌
execution_off = refl

build_report-IsObservation_example :
    IsObservation desk (build_report live_config true "2026-01-01T00:10:00Z" none true desk)
build_report-IsObservation_example =
    build_report-IsObservation live_config true "2026-01-01T00:10:00Z" none true desk execution_off

guard_position-IsGuarded_example : IsGuarded live_config intent "2026-01-01T00:10:00Z" desk.world (
    guard_position live_config
      (order_of intent 1)
      (some fill)
      "2026-01-01T00:10:00Z"
      true
      intent
      desk)
guard_position-IsGuarded_example =
    guard_position-IsGuarded live_config intent (order_of intent 1) (some fill)
      "2026-01-01T00:10:00Z" desk

execute-leaves_example :
    (made : WatchReport × Desk fixed filled) × (execute_pending_limit_watchdog live_config
        "2026-01-01T00:10:00Z"
        (pos 10)
        true
        desk
      ≡ some made)
    × (load_pending made.1.ledger ≡ some (left_of made.0.items (order_of intent 1 ∷ [])))
    × (made.0.checked_count
        ≡ length (
            first_items (at_least_zero (pos 10)) (not_manual live_config (order_of intent 1 ∷ []))))
execute-leaves_example =
    execute-leaves live_config "2026-01-01T00:10:00Z" (pos 10) true desk (order_of intent 1 ∷ [])
      loaded

short : len_text (id_base fixed intent) + len_text ("-" <> ("r" <> show_int (pos 1))) ≤ 36
unfolding text_ops json_ops
short = omega arith

accepted-other_id_example :
    let made =
      accepted_submission fixed intent
        (attempt_intent exact live_config (some btc) intent 1)
        1
        (attempt_id exact live_config (some btc) intent (client_order_id fixed intent) 1)
        Items.nil
        Dict.end in
    intent_client_order_id made.intent ≢ made.client_order_id
unfolding json_ops ◌==◌
accepted-other_id_example =
    accepted-other_id exact live_config (some btc) intent 1 Items.nil Dict.end refl refl short
