-- ===== src/Watchdog/Listed.antt =====
-- A position that the watchdog found, against the open orders that the exchange lists.
use binance_future_agent.Base.{
  String, true, false, Option, none, some, List, ◌≡◌, refl, ◌⊎◌, inl, inr, arith, ==_iff,
}
use binance_future_agent.Base.Float.{Float}
use binance_future_agent.Base.Text.{upper, is_blank, has_part}
use binance_future_agent.Base.Json.{Dict, get, text_or_blank, text_at}
use binance_future_agent.Config.{AppConfig}
use binance_future_agent.Models.{OrderIntent}
use binance_future_agent.Executor.{
  Request, Outcome, ok, err, open_algo_orders, Exchange, World, fetch, position_side,
}
use binance_future_agent.Executor.Protection.{Called, any-Called}
use binance_future_agent.Watchdog.Tables.{PendingOrder}
use binance_future_agent.Watchdog.Backfill.{
  order_kind, is_order_of, existing_kinds, find_existing, backfill_stop, backfill_target,
}
use binance_future_agent.Watchdog.Check.{WatchItem, Desk, guard_position}
use binance_future_agent.Watchdog.Guard.{InPlace, guard_position-IsGuardedBy}

module _ (fl : Float) where
  -- The position side of an order is asked for, or one of the two is blank.
  abbrev IsOfSide : Option String → Dict fl → Type 0
  IsOfSide none order = Unit
  IsOfSide (some wanted) order =
      (is_blank wanted ≡ true)
      ⊎ ((is_blank (upper (text_or_blank (get order "positionSide"))) ≡ true)
          ⊎ (upper (text_or_blank (get order "positionSide")) ≡ wanted))

  -- An order of a symbol and a position side.
  abbrev pub IsOrderOf : String → Option String → Dict fl → Type 0
  IsOrderOf symbol side order =
      (upper (text_at order "symbol") ≡ upper symbol) × IsOfSide side order

  abbrev pub IsStop : Dict fl → Type 0
  IsStop order =
      (has_part (order_kind fl order) "TAKE_PROFIT" ≡ false)
      × (has_part (order_kind fl order) "STOP" ≡ true)

  abbrev pub IsTarget : Dict fl → Type 0
  IsTarget order = has_part (order_kind fl order) "TAKE_PROFIT" ≡ true

  is_order_of-IsOrderOf :
      (symbol : String) (side : Option String) (order : Dict fl)
      → is_order_of fl symbol side order ≡ true
      → IsOrderOf symbol side order
  unfolding is_order_of
  is_order_of-IsOrderOf symbol none order h =
      (ground (arith, ==_iff (upper (text_at order "symbol")) (upper symbol)), tt)
  is_order_of-IsOrderOf symbol (some wanted) order h =
      let actual = upper (text_or_blank (get order "positionSide")) in
      (
        ground (arith, ==_iff (upper (text_at order "symbol")) (upper symbol)),
        ground (arith, ==_iff actual wanted),
      )

module _ {fl : Float} {ex : Exchange fl} (config : AppConfig) (active : OrderIntent fl) where
  -- An order of the symbol and the position side of an intent, of a kind, among the open orders that
  -- the exchange lists for the symbol.
  abbrev pub IsListed : (Dict fl → Type 0) → World fl ex → Type 0
  IsListed kind w =
      (orders : List (Dict fl)) × (order : Dict fl) × ((fetch (open_algo_orders active.symbol) w).0
        ≡ ok orders)
      × Called order orders
      × IsOrderOf fl active.symbol (position_side fl active config) order
      × kind order

  stop-IsListed :
      (reply : Outcome (List (Dict fl))) (w : World fl ex)
      → (fetch (open_algo_orders active.symbol) w).0 ≡ reply
      → (existing_kinds fl active.symbol (position_side fl active config) reply).stop ≡ true
      → IsListed (IsStop fl) w
  unfolding existing_kinds
  stop-IsListed (err e) w answered h = cc
  stop-IsListed (ok orders) w answered h =
      let (order, among, passes) = any-Called _ orders h in
      (
        orders,
        order,
        answered,
        among,
        is_order_of-IsOrderOf fl active.symbol (position_side fl active config) order
            (ground arith),
        (ground arith, ground arith),
      )

  target-IsListed :
      (reply : Outcome (List (Dict fl))) (w : World fl ex)
      → (fetch (open_algo_orders active.symbol) w).0 ≡ reply
      → (existing_kinds fl active.symbol (position_side fl active config) reply).target ≡ true
      → IsListed (IsTarget fl) w
  unfolding existing_kinds
  target-IsListed (err e) w answered h = cc
  target-IsListed (ok orders) w answered h =
      let (order, among, passes) = any-Called _ orders h in
      (
        orders,
        order,
        answered,
        among,
        is_order_of-IsOrderOf fl active.symbol (position_side fl active config) order
            (ground arith),
        ground arith,
      )

  stop_found :
      (request : Request fl) (before after : World fl ex)
      → InPlace (find_existing config active before).0.stop request after
      → IsListed (IsStop fl) before ⊎ Called (request, true) after.calls
  unfolding find_existing
  stop_found request before after (inl there) = inl (stop-IsListed _ before refl there)
  stop_found request before after (inr sent) = inr sent

  target_found :
      (request : Request fl) (before after : World fl ex)
      → InPlace (find_existing config active before).0.target request after
      → IsListed (IsTarget fl) before ⊎ Called (request, true) after.calls
  unfolding find_existing
  target_found request before after (inl there) = inl (target-IsListed _ before refl there)
  target_found request before after (inr sent) = inr sent

  -- What an item says of a position that was found: the exchange lists a stop order, or it was sent and
  -- accepted, and so for a target order; or one of the two was sent and refused.
  abbrev pub IsGuarded : String → World fl ex → WatchItem × Desk fl ex → Type 0
  IsGuarded checked_at before (item, desk) =
      ((item.status ≡ "position_reconciled_protected")
        × (IsListed (IsStop fl) before
            ⊎ Called (backfill_stop config active checked_at, true) desk.world.calls)
        × (IsListed (IsTarget fl) before
            ⊎ Called (backfill_target config active checked_at, true) desk.world.calls))
      ⊎ ((item.status ≡ "protection_failed")
          × (Called (backfill_stop config active checked_at, false) desk.world.calls
              ⊎ Called (backfill_target config active checked_at, false) desk.world.calls))

  -- A position of a pending order, where execution is enabled, ends with both closing orders in
  -- place: each was sent and accepted, or the exchange lists an order of its kind for the symbol and the
  -- position side, on whichever side it is; or it ends with a failure, where one was sent and refused.
  pub guard_position-IsGuarded :
      (pending : PendingOrder fl) (query : Option (Dict fl)) (checked_at : String)
      (desk : Desk fl ex)
      → IsGuarded checked_at desk.world
          (guard_position config pending query checked_at true active desk)
  guard_position-IsGuarded pending query checked_at desk =
      let after = (guard_position config pending query checked_at true active desk).1.world in
      elim (guard_position-IsGuardedBy config pending query checked_at active desk) [
        | inl (protected, stop, target) ↦ inl (
          protected,
          stop_found (backfill_stop config active checked_at) desk.world after stop,
          target_found (backfill_target config active checked_at) desk.world after target,
        )
        | inr refused ↦ inr refused
      ]
