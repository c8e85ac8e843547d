-- ===== src/Watchdog/Backfill.antt =====
-- src/bfa/ops/pending_limit_watchdog.py: the position that a pending order opened, and
-- `_place_missing_protective_orders`. `_position_side`, `_opposite_side`, `_order_status`,
-- `_executed_quantity` and `_average_fill_price` are copies of those of the executor.
use binance_future_agent.Base.{
  String, Bool, true, false, not, ◌&&◌, ◌||◌, Option, none, some, List, [], ◌∷◌, ◌++◌, any, dedupe,
  is_empty, ◌==◌, if◌then◌else◌, or_default,
}
use binance_future_agent.Base.Float
use binance_future_agent.Base.Float.{Float}
use binance_future_agent.Base.Text.{upper, is_blank, has_part}
use binance_future_agent.Base.Json.{Dict, get, text_or_blank, text_at, truthy}
use binance_future_agent.Config.{AppConfig}
use binance_future_agent.Models.{OrderIntent}
use binance_future_agent.Risk.{direction_of}
use binance_future_agent.Executor.{
  Outcome, ok, err, Request, new_algo_order, open_algo_orders, Exchange, World, send, fetch,
  float_or, position_side, closing_algo, first_position, order_status, executed_quantity,
  average_fill_price, position_amount, Kinds,
}

-- What `_active_intent_from_position` finds.
pub data PositionCheck (fl : Float) : Type 0 where
  position_check_failed no_matching_position : PositionCheck fl
  position_found : OrderIntent fl → PositionCheck fl

-- What became of one of the two closing orders.
pub data Backfill : Type 0 where
  already_there placed refused : Backfill

pub record Backfills : Type 0 where
  pub stop : Backfill
  pub target : Backfill

module _ (fl : Float) where
  open fl use {F, mul, lt, le, eq, lit}

  -- `_intent_with_fill`
  unfoldable pub intent_with_fill_of : OrderIntent fl → Dict fl → OrderIntent fl
  intent_with_fill_of intent payload =
      let quantity = executed_quantity fl payload in
      let price = average_fill_price fl payload intent.entry_price in
      let filled : OrderIntent fl = record intent {
        quantity = quantity;
        notional_usdt = mul quantity price;
        entry_price = price;
      } in
      if le quantity (lit 0 0) then intent else filled

  -- `_active_intent_from_order_query`
  unfoldable pub active_from_query : OrderIntent fl → Option (Dict fl) → Option (OrderIntent fl)
  active_from_query intent none = none
  active_from_query intent (some query) =
      if not (order_status fl query == "FILLED") && le (executed_quantity fl query) (lit 0 0)
      then none
      else some (intent_with_fill_of intent query)

  -- The tests of the loop of `_active_intent_from_position` on a position.
  unfoldable pub is_position_of : AppConfig → OrderIntent fl → Dict fl → Bool
  is_position_of config intent position =
      let wanted = or_default (position_side fl intent config) (direction_of intent.side) in
      let actual = upper (text_or_blank (get position "positionSide")) in
      let amount = position_amount position in
      upper (text_at position "symbol") == upper intent.symbol
      && (not (eq amount (lit 0 0))
          && ((is_blank actual || (actual == "BOTH" || actual == wanted))
              && (if lt (lit 0 0) amount then "LONG" else "SHORT") == direction_of intent.side))

  -- The intent at the quantity and the entry price of its position.
  unfoldable pub at_position : OrderIntent fl → Dict fl → OrderIntent fl
  at_position intent position =
      let quantity = Float.abs fl (position_amount position) in
      let price = float_or fl (get position "entryPrice") intent.entry_price in
      record intent {
        quantity = quantity;
        notional_usdt = mul quantity price;
        entry_price = price;
        reason_codes = dedupe (intent.reason_codes ++ ("pending_limit_position_reconciled" ∷ []));
      }

  unfoldable pub position_check :
      AppConfig → OrderIntent fl → Outcome (List (Dict fl)) → PositionCheck fl
  position_check config intent (err e) = position_check_failed
  position_check config intent (ok positions) =
      elim (first_position (is_position_of config intent) positions) [
        | none ↦ no_matching_position
        | some position ↦ position_found (at_position intent position)
      ]

  -- `str(order.get("type") or order.get("orderType") or "").upper()`
  unfoldable pub order_kind : Dict fl → String
  order_kind order =
      let own = get order "type" in
      upper (text_or_blank (if truthy own then own else get order "orderType"))

  -- An order that `_existing_protective_order_types` looks at.
  unfoldable pub is_order_of : String → Option String → Dict fl → Bool
  is_order_of symbol side order =
      let actual = upper (text_or_blank (get order "positionSide")) in
      upper (text_at order "symbol") == upper symbol && (elim side [
        | none ↦ true
        | some wanted ↦ is_blank wanted || (is_blank actual || actual == wanted)
      ])

  -- `_existing_protective_order_types`; none if the call failed.
  unfoldable pub existing_kinds : String → Option String → Outcome (List (Dict fl)) → Kinds
  existing_kinds symbol side (err e) = record { stop = false; target = false }
  existing_kinds symbol side (ok orders) = record {
    stop =
        any
          (λ order.
            is_order_of symbol side order
            && (not (has_part (order_kind order) "TAKE_PROFIT")
                && has_part (order_kind order) "STOP"))
          orders;
    target =
        any (λ order. is_order_of symbol side order && has_part (order_kind order) "TAKE_PROFIT")
          orders;
  }

-- `{"STOP", "TAKE_PROFIT"}.issubset(types)`
abbrev pub both_kinds : Kinds → Bool
both_kinds kinds = kinds.stop && kinds.target

abbrev pub is_refused : Backfill → Bool
is_refused refused = true
is_refused _ = false

-- `_protective_complete`
unfoldable pub protective_complete : Backfills → Bool
protective_complete p = not (is_refused p.stop) && not (is_refused p.target)

stop_reasons : Backfill → List String
stop_reasons already_there = []
stop_reasons placed = "stop_loss_backfilled" ∷ []
stop_reasons refused = "stop_loss_backfill_failed" ∷ []

target_reasons : Backfill → List String
target_reasons already_there = []
target_reasons placed = "take_profit_backfilled" ∷ []
target_reasons refused = "take_profit_backfill_failed" ∷ []

-- `reason_codes` of `_place_missing_protective_orders`
unfoldable pub protection_reasons : Backfills → List String
unfolding stop_reasons target_reasons
protection_reasons p =
    let codes = stop_reasons p.stop ++ target_reasons p.target in
    if protective_complete p && is_empty codes
    then "protective_orders_already_present" ∷ []
    else codes

module _ {fl : Float} where
  -- The time in the identifier of a closing order is that of the check.
  unfoldable pub checked_intent : OrderIntent fl → String → OrderIntent fl
  checked_intent intent checked_at = record intent {
    decided_at = if is_blank checked_at then intent.decided_at else checked_at;
  }

  unfoldable pub backfill_stop : AppConfig → OrderIntent fl → String → Request fl
  backfill_stop config intent checked_at = new_algo_order (
      closing_algo (checked_intent intent checked_at) (position_side fl intent config) "STOP_MARKET"
        intent.stop_price "wd-sl")

  unfoldable pub backfill_target : AppConfig → OrderIntent fl → String → Request fl
  backfill_target config intent checked_at = new_algo_order (
      closing_algo (checked_intent intent checked_at) (position_side fl intent config)
        "TAKE_PROFIT_MARKET" intent.target_price "wd-tp")

  abbrev pub backfill_of : Outcome (Dict fl) → Backfill
  backfill_of (ok reply) = placed
  backfill_of (err e) = refused

module _ {fl : Float} {ex : Exchange fl} where
  -- A closing order that is sent unless its kind is there.
  unfoldable pub backfill : Bool → Request fl → World fl ex → Backfill × World fl ex
  backfill true request w = (already_there, w)
  backfill false request w = let (reply, w') = send request w in (backfill_of reply, w')

  -- `_existing_protective_order_types`, with its call.
  unfoldable pub find_existing : AppConfig → OrderIntent fl → World fl ex → Kinds × World fl ex
  find_existing config intent w =
      let (reply, w') = fetch (open_algo_orders intent.symbol) w in
      (existing_kinds fl intent.symbol (position_side fl intent config) reply, w')

  -- `_place_missing_protective_orders`
  unfoldable pub place_missing_protective_orders :
      AppConfig → OrderIntent fl → String → World fl ex → Backfills × World fl ex
  place_missing_protective_orders config intent checked_at w =
      let (kinds, w1) = find_existing config intent w in
      let (stop, w2) = backfill kinds.stop (backfill_stop config intent checked_at) w1 in
      let (target, w3) = backfill kinds.target (backfill_target config intent checked_at) w2 in
      (record { stop = stop; target = target }, w3)
