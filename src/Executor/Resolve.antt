-- ===== src/Executor/Resolve.antt =====
-- src/bfa/execution/executor.py: the methods that place the protective orders, replace those that
-- conflict, and resolve a failure, with the emergency close.
use binance_future_agent.Base.{
  String, Bool, true, false, not, ◌&&◌, Option, none, some, List, [], ◌∷◌, if◌then◌else◌,
}
use binance_future_agent.Base.Float.{Float}
use binance_future_agent.Base.Json.{Json, Items, Dict, get, truthy}
use binance_future_agent.Config.{AppConfig}
use binance_future_agent.Models.{OrderIntent}
use binance_future_agent.Executor.Client.{
  Outcome, ok, err, is_ok, Exchange, Action, Request, position_risk, open_algo_orders,
  cancel_algo_order, send, fetch, pure, raise, attempt, ◌>>=◌,
}
use binance_future_agent.Executor.Orders.{
  opposite_side, position_side, error_payload, matching_close_order, is_stale_unknown_order_error,
}
use binance_future_agent.Executor.Protect.{
  stop_request, target_request, close_request, snapshot_of, fallback_stop_price,
  fallback_target_price, kinds_of, Snapshot, Kinds, Resolution, no_position, no_matching_position,
  existing_present, fallback_submitted, fallback_stop_submitted, emergency_closed,
  emergency_close_failed,
}

module _ {fl : Float} where
  abbrev is_null : Json fl → Bool
  is_null Json.null = true
  is_null _ = false

  -- An order with neither of the identifiers that `cancel_algo_order` of
  -- src/bfa/execution/binance_client.py asks for.
  unfoldable pub lacks_id : Dict fl → Bool
  lacks_id order = is_null (get order "algoId") && not (truthy (get order "clientAlgoId"))

  -- `cancelled.append(...)`, where nothing was raised.
  unfoldable pub joined : Dict fl → Option (Items fl) → Option (Items fl)
  joined cancelled none = none
  joined cancelled (some more) = some (Items.cons (Json.obj cancelled) more)

module _ {fl : Float} {ex : Exchange fl} (config : AppConfig) (intent : OrderIntent fl) where
  -- `_place_protective_orders`
  unfoldable pub place_protective_orders : Action fl ex (Dict fl)
  place_protective_orders =
      let side = position_side fl intent config in
      send (stop_request intent side intent.stop_price "sl") >>= λ stop.
      send (target_request intent side intent.target_price "tp") >>= λ target. pure (
        Dict.field "stop_loss_order" (Json.obj stop)
          (Dict.field "take_profit_order" (Json.obj target) Dict.end))

  -- The answer to a cancellation; an order that is gone already counts as cancelled.
  unfoldable pub cancelled_as :
      Json fl → Json fl → Outcome (Dict fl) → Action fl ex (Option (Dict fl))
  cancelled_as algo_id client_id (ok response) = pure (some response)
  cancelled_as algo_id client_id (err e) =
      if is_stale_unknown_order_error e
      then pure (
          some (
            Dict.field "status" (Json.str "stale_missing") (
              Dict.field "symbol" (Json.str intent.symbol) (
                Dict.field "algoId" algo_id (
                  Dict.field "clientAlgoId" client_id
                    (Dict.field "warning" (Json.obj (error_payload fl e)) Dict.end))))))
      else raise e

  -- One round of the loop of `_cancel_conflicting_protective_orders`. The client raises `ValueError`,
  -- here nothing, before it asks the exchange, where the order has neither identifier.
  unfoldable pub cancel_one : Dict fl → Action fl ex (Option (Dict fl))
  cancel_one order =
      let algo_id = get order "algoId" in
      let client_id = get order "clientAlgoId" in
      let own = if is_null algo_id then client_id else Json.null in
      if lacks_id order
      then pure none
      else (attempt (send (cancel_algo_order intent.symbol algo_id own))
          >>= cancelled_as algo_id client_id)

  -- What was cancelled, with what is cancelled after it.
  unfoldable pub and_then :
      Action fl ex (Option (Items fl)) → Option (Dict fl) → Action fl ex (Option (Items fl))
  and_then rest none = pure none
  and_then rest (some cancelled) = rest >>= λ more. pure (joined cancelled more)

  unfoldable pub cancel_all : List (Dict fl) → Action fl ex (Option (Items fl))
  cancel_all [] = pure (some Items.nil)
  cancel_all (order ∷ orders) =
      let rest = cancel_all orders in
      if matching_close_order fl intent.symbol (opposite_side intent.side)
        (position_side fl intent config) order
      then (cancel_one order >>= and_then rest)
      else rest

  -- The protective orders once more, with the record of those that were cancelled.
  unfoldable pub place_recovered : Option (Items fl) → Action fl ex (Option (Dict fl))
  place_recovered none = pure none
  place_recovered (some cancelled) = place_protective_orders >>= λ placed. pure (
      some (
        Dict.field "protective_recovery"
          (Json.obj (
            Dict.field "reason" (Json.str "existing_close_position_algo_conflict")
              (Dict.field "cancelled_algo_orders" (Json.arr cancelled) Dict.end)))
          placed))

  unfoldable pub cancel_and_place : List (Dict fl) → Action fl ex (Option (Dict fl))
  cancel_and_place orders = cancel_all orders >>= place_recovered

  -- `_replace_conflicting_protective_orders`; nothing where a cancellation raises `ValueError`.
  unfoldable pub replace_conflicting_orders : Action fl ex (Option (Dict fl))
  replace_conflicting_orders = fetch (open_algo_orders intent.symbol) >>= cancel_and_place

  -- A closing order that is sent if it is missing: whether it is there afterwards.
  unfoldable pub place_if_missing : Bool → Request fl → Action fl ex Bool
  place_if_missing present request =
      if present then pure true else (attempt (send request) >>= λ reply. pure (is_ok reply))

  -- `_place_fallback_protective_orders`: the kinds that are there afterwards.
  unfoldable pub place_fallback_orders : Option String → Snapshot fl → Kinds → Action fl ex Kinds
  place_fallback_orders side snapshot existing =
      place_if_missing existing.stop
        (stop_request intent side (fallback_stop_price intent snapshot) "fbsl")
      >>= λ stop.
          place_if_missing existing.target
            (target_request intent side (fallback_target_price intent snapshot) "fbtp")
          >>= λ target. pure (record { stop = stop; target = target })

  -- `_emergency_close_position`
  unfoldable pub emergency_close : Option String → Action fl ex Resolution
  emergency_close side = attempt (send (close_request config intent side)) >>= λ reply.
      pure (if is_ok reply then emergency_closed else emergency_close_failed)

  -- The end of `_resolve_protective_order_failure`, by the kinds that the fallback left.
  unfoldable pub settle : Option String → Kinds → Action fl ex Resolution
  settle side kinds =
      if kinds.stop
      then pure (if kinds.target then fallback_submitted else fallback_stop_submitted)
      else emergency_close side

  unfoldable pub resolve_open : Option String → Snapshot fl → Kinds → Action fl ex Resolution
  resolve_open side snapshot existing =
      if existing.stop && existing.target
      then pure existing_present
      else (place_fallback_orders side snapshot existing >>= λ kinds. settle side kinds)

  unfoldable pub resolve_position : Option String → Snapshot fl → Action fl ex Resolution
  resolve_position side no_position = pure no_matching_position
  resolve_position side snapshot = attempt (fetch (open_algo_orders intent.symbol)) >>= λ orders.
      resolve_open side snapshot (kinds_of intent side orders)

  -- `_resolve_protective_order_failure`
  unfoldable pub resolve_protective_failure : Option String → Action fl ex Resolution
  resolve_protective_failure side = attempt (fetch (position_risk intent.symbol)) >>= λ positions.
      resolve_position side (snapshot_of intent side positions)
