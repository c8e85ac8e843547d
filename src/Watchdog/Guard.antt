-- ===== src/Watchdog/Guard.antt =====
-- A position that the watchdog found: the item is true of the closing orders.
use binance_future_agent.Base.{String, Bool, true, false, Option, ◌≡◌, refl, ◌⊎◌, inl, inr}
use binance_future_agent.Base.Float.{Float}
use binance_future_agent.Base.Json.{Dict}
use binance_future_agent.Config.{AppConfig}
use binance_future_agent.Models.{OrderIntent}
use binance_future_agent.Executor.{
  Request, Outcome, ok, err, Exchange, World, Kinds, send, logged, is_ok,
}
use binance_future_agent.Executor.Protection.{Called}
use binance_future_agent.Watchdog.Tables.{Ledger, PendingOrder}
use binance_future_agent.Watchdog.Backfill.{
  Backfill, already_there, placed, refused, backfill_of, Backfills, protective_complete, backfill,
  backfill_stop, backfill_target, find_existing, place_missing_protective_orders,
}
use binance_future_agent.Watchdog.Check.{
  with_ledger, WatchItem, Desk, persist_protection, position_item, watched, guard_position,
}

module _ {fl : Float} {ex : Exchange fl} where
  -- What became of a closing order, truly of the kinds that were there and of the calls.
  abbrev pub IsTrueOf : Backfill → Bool → Request fl → World fl ex → Type 0
  IsTrueOf already_there present request w = present ≡ true
  IsTrueOf placed present request w = (present ≡ false) × Called (request, true) w.calls
  IsTrueOf refused present request w = (present ≡ false) × Called (request, false) w.calls

  sent-IsTrueOf :
      (request : Request fl) (w : World fl ex) (reply : Outcome (Dict fl)) (state : ex.State)
      → IsTrueOf (backfill_of reply) false request (logged request (is_ok reply) state w)
  sent-IsTrueOf request w (ok d) state = (refl, inl refl)
  sent-IsTrueOf request w (err e) state = (refl, inl refl)

  backfill-IsTrueOf :
      (present : Bool) (request : Request fl) (w : World fl ex)
      → IsTrueOf (backfill present request w).0 present request (backfill present request w).1
  unfolding backfill send
  backfill-IsTrueOf true request w = refl
  backfill-IsTrueOf false request w =
      sent-IsTrueOf request w (ex.call request w.state).0 (ex.call request w.state).1

  logged-IsTrueOf :
      (made : Backfill) (present : Bool) (request other : Request fl) (answered : Bool)
      → (state : ex.State) (w : World fl ex) → IsTrueOf made present request w
      → IsTrueOf made present request (logged other answered state w)
  logged-IsTrueOf already_there present request other answered state w h = h
  logged-IsTrueOf placed present request other answered state w h = (h.0, inr h.1)
  logged-IsTrueOf refused present request other answered state w h = (h.0, inr h.1)

  still-IsTrueOf :
      (made : Backfill) (present present' : Bool) (request request' : Request fl) (w : World fl ex)
      → IsTrueOf made present request w
      → IsTrueOf made present request (backfill present' request' w).1
  unfolding backfill send
  still-IsTrueOf made present true request request' w h = h
  still-IsTrueOf made present false request request' w h =
      logged-IsTrueOf made present request request' _ _ w h

  -- The two closing orders of a position, the kinds that were there being those of a reply.
  abbrev pub AreTrueOf :
      AppConfig → OrderIntent fl → String → Kinds → Backfills → World fl ex → Type 0
  AreTrueOf config active checked_at kinds made w =
      IsTrueOf made.stop kinds.stop (backfill_stop config active checked_at) w
      × IsTrueOf made.target kinds.target (backfill_target config active checked_at) w

  place_missing-AreTrueOf :
      (config : AppConfig) (active : OrderIntent fl) (checked_at : String) (w : World fl ex)
      → AreTrueOf config active checked_at
          (find_existing config active w).0
          (place_missing_protective_orders config active checked_at w).0
          (place_missing_protective_orders config active checked_at w).1
  unfolding place_missing_protective_orders
  place_missing-AreTrueOf config active checked_at w =
      let (kinds, w1) = find_existing config active w in
      let stop = backfill kinds.stop (backfill_stop config active checked_at) w1 in
      (
        still-IsTrueOf stop.0 kinds.stop kinds.target (backfill_stop config active checked_at)
            (backfill_target config active checked_at) stop.1
            (backfill-IsTrueOf kinds.stop (backfill_stop config active checked_at) w1),
        backfill-IsTrueOf kinds.target (backfill_target config active checked_at) stop.1,
      )

  -- A closing order whose kind counted as there, or that was sent and accepted.
  abbrev pub InPlace : Bool → Request fl → World fl ex → Type 0
  InPlace present request w = (present ≡ true) ⊎ Called (request, true) w.calls

  -- What an item says of a position that was found, the kinds that counted as there being given: both
  -- closing orders are in place, or one that was missing was refused.
  abbrev pub IsGuardedBy :
      AppConfig → OrderIntent fl → String → Kinds → WatchItem × Desk fl ex → Type 0
  IsGuardedBy config active checked_at kinds (item, desk) =
      ((item.status ≡ "position_reconciled_protected")
        × InPlace kinds.stop (backfill_stop config active checked_at) desk.world
        × InPlace kinds.target (backfill_target config active checked_at) desk.world)
      ⊎ ((item.status ≡ "protection_failed")
          × (Called (backfill_stop config active checked_at, false) desk.world.calls
              ⊎ Called (backfill_target config active checked_at, false) desk.world.calls))

  persist-IsGuardedBy :
      (config : AppConfig) (pending : PendingOrder fl) (query : Option (Dict fl))
      (checked_at : String)
      → (active : OrderIntent fl) (kinds : Kinds) (stop target : Backfill) (w : World fl ex)
      → (ledger : Ledger fl) → IsTrueOf stop kinds.stop (backfill_stop config active checked_at) w
      → IsTrueOf target kinds.target (backfill_target config active checked_at) w
      → IsGuardedBy config active checked_at kinds (
          with_ledger w (
            persist_protection config pending query checked_at active
              (record { stop = stop; target = target })
              ledger))
  unfolding persist_protection position_item watched protective_complete
  persist-IsGuardedBy config pending query checked_at active kinds already_there already_there w
        ledger h k =
      inl (refl, inl h, inl k)
  persist-IsGuardedBy config pending query checked_at active kinds already_there placed w ledger h
        k =
      inl (refl, inl h, inr k.1)
  persist-IsGuardedBy config pending query checked_at active kinds placed already_there w ledger h
        k =
      inl (refl, inr h.1, inl k)
  persist-IsGuardedBy config pending query checked_at active kinds placed placed w ledger h k =
      inl (refl, inr h.1, inr k.1)
  persist-IsGuardedBy config pending query checked_at active kinds refused target w ledger h k =
      inr (refl, inl h.1)
  persist-IsGuardedBy config pending query checked_at active kinds already_there refused w ledger h
        k =
      inr (refl, inr k.1)
  persist-IsGuardedBy config pending query checked_at active kinds placed refused w ledger h k =
      inr (refl, inr k.1)

  pub guard_position-IsGuardedBy :
      (config : AppConfig) (pending : PendingOrder fl) (query : Option (Dict fl))
      (checked_at : String)
      → (active : OrderIntent fl) (desk : Desk fl ex)
      → IsGuardedBy config active checked_at
          (find_existing config active desk.world).0
          (guard_position config pending query checked_at true active desk)
  unfolding guard_position
  guard_position-IsGuardedBy config pending query checked_at active desk =
      let (made, w) = place_missing_protective_orders config active checked_at desk.world in
      let true_of = place_missing-AreTrueOf config active checked_at desk.world in
      persist-IsGuardedBy config pending query checked_at active
        (find_existing config active desk.world).0 made.stop made.target w desk.ledger true_of.0
        true_of.1
