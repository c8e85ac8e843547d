-- ===== src/Executor/Recovered.antt =====
-- The recovery of the protective orders, where closing orders that are there conflict:
-- src/bfa/execution/executor.py, `_replace_conflicting_protective_orders`.
use binance_future_agent.Base.{
  String, true, false, Option, none, some, List, [], ◌∷◌, ◌≡◌, All, arith,
}
use binance_future_agent.Base.Float.{Float}
use binance_future_agent.Base.Json.{Json, Dict, Items}
use binance_future_agent.Config.{AppConfig}
use binance_future_agent.Models.{OrderIntent}
use binance_future_agent.Executor.Client.{
  Exchange, World, Outcome, ok, err, send, fetch, Action, open_algo_orders,
}
use binance_future_agent.Executor.Orders.{position_side}
use binance_future_agent.Executor.Protect.{stop_request, target_request}
use binance_future_agent.Executor.Resolve.{
  place_protective_orders, replace_conflicting_orders, cancelled_as, cancel_one, lacks_id, joined,
  and_then, cancel_all, place_recovered, cancel_and_place,
}
use binance_future_agent.Executor.Protection.{Called}

module _ {fl : Float} where
  abbrev AllIdentified : Outcome (List (Dict fl)) → Type 0
  AllIdentified (ok orders) = All (λ order. lacks_id order ≡ false) orders
  AllIdentified (err e) = Unit

  -- Every open order that the exchange lists for a symbol has an identifier.
  abbrev pub IsIdentifying : Exchange fl → Type 0
  IsIdentifying ex =
      (symbol : String) (state : ex.State)
      → AllIdentified (ex.rows (open_algo_orders symbol) state).0

module _ {fl : Float} {ex : Exchange fl} (config : AppConfig) (intent : OrderIntent fl) where
  -- The stop order and the target order of the intent were sent and accepted.
  abbrev pub BothPlaced : World fl ex → Type 0
  BothPlaced w =
      let side = position_side fl intent config in
      Called (stop_request intent side intent.stop_price "sl", true) w.calls
      × Called (target_request intent side intent.target_price "tp", true) w.calls

  abbrev pub Placed : Outcome (Dict fl) × World fl ex → Type 0
  Placed (ok placed, w) = BothPlaced w
  Placed (err e, w) = Unit

  pub place-Placed : (w : World fl ex) → Placed (place_protective_orders config intent w)
  unfolding place_protective_orders send
  place-Placed w = ground arith

  -- The recovery did not end in a `ValueError`.
  abbrev Returned : (A : Type 0) → Outcome (Option A) × World fl ex → Type 0
  Returned A (ok none, w) = ⊥
  Returned A _ = Unit

  abbrev pub Recovered : Outcome (Option (Dict fl)) × World fl ex → Type 0
  Recovered (ok none, w) = ⊥
  Recovered (ok (some placed), w) = BothPlaced w
  Recovered (err e, w) = Unit

  joined-Returned :
      (c : Dict fl) (rest : Outcome (Option (Items fl)) × World fl ex)
      → Returned (Items fl) rest
      → Returned
          (Items fl)
          (elim rest.0 [ ok more ↦ (ok (joined c more), rest.1) | err e ↦ (err e, rest.1) ])
  unfolding joined
  joined-Returned c (ok none, w) h = h
  joined-Returned c (ok (some more), w) h = tt
  joined-Returned c (err e, w) h = tt

  cancelled_as-Returned :
      (algo_id client_id : Json fl) (reply : Outcome (Dict fl)) (w : World fl ex)
      → Returned (Dict fl) (cancelled_as config intent algo_id client_id reply w)
  unfolding cancelled_as
  cancelled_as-Returned algo_id client_id (ok response) w = tt
  cancelled_as-Returned algo_id client_id (err e) w = ground arith

  cancel_one-Returned :
      (order : Dict fl) (w : World fl ex)
      → lacks_id order ≡ false
      → Returned (Dict fl) (cancel_one config intent order w)
  unfolding cancel_one send
  cancel_one-Returned order w known = rw known (cancelled_as-Returned _ _ _ _)

  and_then-Returned :
      (rest : Action fl ex (Option (Items fl))) (done : Outcome (Option (Dict fl)) × World fl ex)
      → ((w : World fl ex) → Returned (Items fl) (rest w))
      → Returned (Dict fl) done
      → Returned
          (Items fl)
          (elim done.0 [ ok c ↦ and_then config intent rest c done.1 | err e ↦ (err e, done.1) ])
  unfolding and_then joined
  and_then-Returned rest (ok none, w) h done = absurd done
  and_then-Returned rest (ok (some c), w) h done = joined-Returned c (rest w) (h w)
  and_then-Returned rest (err e, w) h done = tt

  cancel_all-Returned :
      (orders : List (Dict fl)) (w : World fl ex)
      → All (λ order. lacks_id order ≡ false) orders
      → Returned (Items fl) (cancel_all config intent orders w)
  unfolding cancel_all
  cancel_all-Returned [] w known = tt
  cancel_all-Returned (order ∷ orders) w known = ground (
    arith,
    cancel_all-Returned orders w known.1,
    and_then-Returned (cancel_all config intent orders) (cancel_one config intent order w)
        (λ w'. cancel_all-Returned orders w' known.1) (cancel_one-Returned order w known.0),
  )

  place_recovered-Recovered :
      (cancelled : Items fl) (w : World fl ex)
      → Recovered (place_recovered config intent (some cancelled) w)
  unfolding place_recovered place_protective_orders send
  place_recovered-Recovered cancelled w = ground arith

  cancelled-Recovered :
      (cancelled : Outcome (Option (Items fl)) × World fl ex)
      → Returned (Items fl) cancelled
      → Recovered (elim cancelled.0 [
        | ok c ↦ place_recovered config intent c cancelled.1
        | err e ↦ (err e, cancelled.1)
      ])
  cancelled-Recovered (ok none, w) h = absurd h
  cancelled-Recovered (ok (some c), w) h = place_recovered-Recovered c w
  cancelled-Recovered (err e, w) h = tt

  listed-Recovered :
      (listed : Outcome (List (Dict fl))) (w : World fl ex)
      → AllIdentified listed
      → Recovered
          (elim listed [ ok orders ↦ cancel_and_place config intent orders w | err e ↦ (err e, w) ])
  unfolding cancel_and_place
  listed-Recovered (ok orders) w known =
      cancelled-Recovered (cancel_all config intent orders w) (cancel_all-Returned orders w known)
  listed-Recovered (err e) w known = tt

  pub replace-Recovered :
      (w : World fl ex) → IsIdentifying ex → Recovered (replace_conflicting_orders config intent w)
  unfolding replace_conflicting_orders fetch
  replace-Recovered w known = listed-Recovered _ _ (known intent.symbol w.state)
