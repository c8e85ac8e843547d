-- ===== src/Executor/Protect.antt =====
-- src/bfa/execution/executor.py: the requests of the protective orders, the position and the closing
-- orders that a check finds, and the fallback prices.
use binance_future_agent.Base.{
  String, Bool, true, false, not, ◌&&◌, ◌||◌, Option, none, some, List, [], ◌∷◌, ◌==◌, any,
  if◌then◌else◌,
}
use binance_future_agent.Base.Float
use binance_future_agent.Base.Float.{Float}
use binance_future_agent.Base.Text.{upper, is_blank}
use binance_future_agent.Base.Json.{Dict, get, text_or_blank, text_at}
use binance_future_agent.Config.{AppConfig, hedge_mode}
use binance_future_agent.Models.{OrderIntent}
use binance_future_agent.Risk.{direction_of}
use binance_future_agent.Executor.Client.{
  SignedError, Outcome, ok, err, Request, AlgoRequest, new_algo_order, new_order,
}
use binance_future_agent.Executor.Orders.{
  opposite_side, client_order_id_with, float_or, matching_close_order, is_stop_kind, is_target_kind,
}

-- No position side is asked for or given, or the two agree.
abbrev sides_agree : Option String → String → Bool
sides_agree none actual = true
sides_agree (some wanted) actual = is_blank wanted || (is_blank actual || actual == upper wanted)

module _ {fl : Float} where
  open fl use {F, add, sub, mul, lt, eq, lit}

  -- A closing order of an intent, of a type and at a price.
  unfoldable pub closing_algo :
      OrderIntent fl → Option String → String → F → String → AlgoRequest fl
  closing_algo intent position order_type price suffix = record {
    symbol = intent.symbol;
    side = opposite_side intent.side;
    order_type = order_type;
    stop_price = price;
    close_position = true;
    position_side = position;
    client_algo_id = client_order_id_with fl intent suffix;
  }

  unfoldable pub stop_request : OrderIntent fl → Option String → F → String → Request fl
  stop_request intent position price suffix =
      new_algo_order (closing_algo intent position "STOP_MARKET" price suffix)

  unfoldable pub target_request : OrderIntent fl → Option String → F → String → Request fl
  target_request intent position price suffix =
      new_algo_order (closing_algo intent position "TAKE_PROFIT_MARKET" price suffix)

  -- The request of `_emergency_close_position`.
  unfoldable pub close_request : AppConfig → OrderIntent fl → Option String → Request fl
  close_request config intent position = new_order (record {
    symbol = intent.symbol;
    side = opposite_side intent.side;
    order_type = "MARKET";
    quantity = intent.quantity;
    price = none;
    time_in_force = none;
    reduce_only = not (hedge_mode config);
    position_side = position;
    client_order_id = client_order_id_with fl intent "close";
  })

  -- `_float(position.get("positionAmt")) or 0.0`
  unfoldable pub position_amount : Dict fl → F
  position_amount position = float_or fl (get position "positionAmt") (lit 0 0)

  -- The tests of the loop of `_matching_position_snapshot` on a position.
  unfoldable pub matches_position : OrderIntent fl → Option String → Dict fl → Bool
  matches_position intent side position =
      upper (text_at position "symbol") == upper intent.symbol
      && (sides_agree side (upper (text_or_blank (get position "positionSide")))
          && (not (eq (position_amount position) (lit 0 0))
              && (if lt (lit 0 0) (position_amount position) then "LONG" else "SHORT")
                == direction_of intent.side))

  unfoldable pub first_position : (Dict fl → Bool) → List (Dict fl) → Option (Dict fl)
  first_position test [] = none
  first_position test (p ∷ ps) =
      let rest = first_position test ps in if test p then some p else rest

module _ (fl : Float) where
  open fl use {F, mul, eq, lit}

  -- `_float(position.get("entry_price")) or intent.entry_price`, and the mark price likewise.
  abbrev or_price : F → F → F
  or_price x default = if eq x (lit 0 0) then default else x

  -- `max(planned * factor, abs(entry) * 0.006, abs(mark) * 0.004)`
  abbrev fallback_distance : F → F → F → F → F
  fallback_distance planned factor entry mark =
      Float.max fl (Float.max fl (mul planned factor) (mul (Float.abs fl entry) (lit 6 3)))
        (mul (Float.abs fl mark) (lit 4 3))

-- The snapshot of the position that an intent opened: the check failed, there is none, or there is
-- one with its entry price and its mark price.
pub data Snapshot (fl : Float) : Type 0 where
  check_failed : SignedError → Snapshot fl
  no_position : Snapshot fl
  open_position : fl.F → fl.F → Snapshot fl

-- The kinds of closing orders that are there.
pub record Kinds : Type 0 where
  pub stop : Bool
  pub target : Bool

-- The statuses of `_resolve_protective_order_failure`.
pub data Resolution : Type 0 where
  no_matching_position existing_present fallback_submitted fallback_stop_submitted : Resolution
  emergency_closed emergency_close_failed : Resolution

module _ {fl : Float} where
  open fl use {F, add, sub, mul, lt, eq, lit}

  unfoldable pub snapshot_of :
      OrderIntent fl → Option String → Outcome (List (Dict fl)) → Snapshot fl
  unfolding first_position
  snapshot_of intent side (err e) = check_failed e
  snapshot_of intent side (ok positions) =
      elim (first_position (matches_position intent side) positions) [
        | none ↦ no_position
        | some p ↦
            open_position (float_or fl (get p "entryPrice") intent.entry_price)
              (float_or fl (get p "markPrice") intent.entry_price)
      ]

  abbrev snapshot_entry : OrderIntent fl → Snapshot fl → F
  snapshot_entry intent (open_position entry mark) = or_price fl entry intent.entry_price
  snapshot_entry intent _ = intent.entry_price

  abbrev snapshot_mark : OrderIntent fl → Snapshot fl → F
  snapshot_mark intent (open_position entry mark) =
      or_price fl mark (or_price fl entry intent.entry_price)
  snapshot_mark intent _ = intent.entry_price

  -- `_fallback_stop_price`
  unfoldable pub fallback_stop_price : OrderIntent fl → Snapshot fl → F
  fallback_stop_price intent position =
      let entry = snapshot_entry intent position in
      let mark = snapshot_mark intent position in
      let risk =
        fallback_distance fl (Float.abs fl (sub entry intent.stop_price)) (lit 135 2) entry mark in
      if upper intent.side == "BUY"
      then Float.min fl intent.stop_price (sub mark risk)
      else Float.max fl intent.stop_price (add mark risk)

  -- `_fallback_target_price`
  unfoldable pub fallback_target_price : OrderIntent fl → Snapshot fl → F
  fallback_target_price intent position =
      let entry = snapshot_entry intent position in
      let mark = snapshot_mark intent position in
      let reward =
        fallback_distance fl (Float.abs fl (sub intent.target_price entry)) (lit 75 2) entry mark in
      if upper intent.side == "BUY"
      then Float.max fl intent.target_price (add mark reward)
      else Float.min fl intent.target_price (sub mark reward)

  -- The kinds among the orders of `_existing_protective_snapshot`; none if the call failed.
  unfoldable pub kinds_of : OrderIntent fl → Option String → Outcome (List (Dict fl)) → Kinds
  kinds_of intent side (err e) = record { stop = false; target = false }
  kinds_of intent side (ok orders) =
      let matching = matching_close_order fl intent.symbol (opposite_side intent.side) side in
      record {
        stop = any (λ order. matching order && is_stop_kind fl order) orders;
        target = any (λ order. matching order && is_target_kind fl order) orders;
      }
