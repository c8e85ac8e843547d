-- ===== src/Executor/Protection.antt =====
-- What a run leaves behind when the exchange refuses the protective orders: a stop order, or an
-- attempt to close the position, for every behaviour of the exchange.
use binance_future_agent.Base.{
  String, Bool, true, false, Option, List, [], ◌∷◌, ◌≡◌, refl, sym, subst, ◌⊎◌, inl, inr, any,
  Bool-cases, arith,
}
use binance_future_agent.Base.Float.{Float}
use binance_future_agent.Config.{AppConfig}
use binance_future_agent.Models.{OrderIntent}
use binance_future_agent.Executor.Client.{
  Outcome, ok, err, Exchange, World, Request, position_risk, open_algo_orders, send, fetch,
}
use binance_future_agent.Executor.Protect.{
  Snapshot, check_failed, no_position, open_position, Kinds, Resolution, no_matching_position,
  existing_present, fallback_submitted, fallback_stop_submitted, emergency_closed,
  emergency_close_failed, stop_request, target_request, close_request, snapshot_of, kinds_of,
  fallback_stop_price, fallback_target_price,
}
use binance_future_agent.Executor.Resolve.{
  place_if_missing, place_fallback_orders, emergency_close, settle, resolve_open, resolve_position,
  resolve_protective_failure,
}

-- A call among those that were made, with whether it was answered.
abbrev pub Called : {A : Type 0} → A → List A → Type 0
Called c [] = ⊥
Called c (d ∷ ds) = (c ≡ d) ⊎ Called c ds

-- A value that makes a test on some values succeed.
pub any-Called :
    {A : Type 0} (test : A → Bool) (xs : List A)
    → any test xs ≡ true
    → (x : A) × Called x xs × (test x ≡ true)
unfolding any
any-Called test [] h = cc
any-Called test (x ∷ xs) h = elim (Bool-cases (test x)) [
  | inl here ↦ (x, inl refl, here)
  | inr later ↦
      let (y, among, passes) = any-Called test xs (rw later at h) in (y, inr among, passes)
]

module _ {fl : Float} {ex : Exchange fl} (config : AppConfig) (intent : OrderIntent fl)
    (side : Option String) where
  -- A kind of order that was there, or was asked for and accepted.
  abbrev InPlace : Bool → Request fl → World fl ex → Type 0
  InPlace present request w = (present ≡ true) ⊎ Called (request, true) w.calls

  abbrev Settled : Snapshot fl → Kinds → World fl ex → Outcome Resolution × World fl ex → Type 0
  Settled snapshot existing w (err e, w') = ⊥
  Settled snapshot existing w (ok no_matching_position, w') = ⊥
  Settled snapshot existing w (ok existing_present, w') =
      (existing.stop ≡ true) × (existing.target ≡ true) × (w' ≡ w)
  Settled snapshot existing w (ok fallback_submitted, w') =
      InPlace existing.stop (stop_request intent side (fallback_stop_price intent snapshot) "fbsl")
        w'
      × InPlace existing.target
          (target_request intent side (fallback_target_price intent snapshot) "fbtp") w'
  Settled snapshot existing w (ok fallback_stop_submitted, w') =
      InPlace existing.stop (stop_request intent side (fallback_stop_price intent snapshot) "fbsl")
        w'
  Settled snapshot existing w (ok emergency_closed, w') =
      Called (close_request config intent side, true) w'.calls
  Settled snapshot existing w (ok emergency_close_failed, w') =
      Called (close_request config intent side, false) w'.calls

  resolve_open-Settled :
      (snapshot : Snapshot fl) (existing : Kinds) (w : World fl ex)
      → Settled snapshot existing w (resolve_open config intent side snapshot existing w)
  unfolding resolve_open place_fallback_orders place_if_missing settle emergency_close send
  resolve_open-Settled snapshot existing w = ground arith

  -- The world after the check of the position, and after the list of closing orders was read.
  abbrev checked : World fl ex → World fl ex
  checked w = (fetch (position_risk intent.symbol) w).1

  abbrev listed : World fl ex → World fl ex
  listed w = (fetch (open_algo_orders intent.symbol) (checked w)).1

  abbrev snapshot_at : World fl ex → Snapshot fl
  snapshot_at w = snapshot_of intent side (fetch (position_risk intent.symbol) w).0

  abbrev existing_at : World fl ex → Kinds
  existing_at w = kinds_of intent side (fetch (open_algo_orders intent.symbol) (checked w)).0

  abbrev pub Resolved : World fl ex → Outcome Resolution × World fl ex → Type 0
  Resolved w (ok no_matching_position, w') = (snapshot_at w ≡ no_position) × (w' ≡ checked w)
  Resolved w result = Settled (snapshot_at w) (existing_at w) (listed w) result

  Settled-Resolved :
      (w : World fl ex) (snapshot : Snapshot fl) (result : Outcome Resolution × World fl ex)
      → snapshot_at w ≡ snapshot
      → Settled snapshot (existing_at w) (listed w) result
      → Resolved w result
  Settled-Resolved w snapshot (ok no_matching_position, w') h s = absurd s
  Settled-Resolved w snapshot result h s =
      subst (λ x. Settled x (existing_at w) (listed w) result) (sym h) s

  open-Resolved :
      (w : World fl ex) (snapshot : Snapshot fl)
      → snapshot_at w ≡ snapshot
      → Resolved w (resolve_open config intent side snapshot (existing_at w) (listed w))
  open-Resolved w snapshot h =
      Settled-Resolved w snapshot
        (resolve_open config intent side snapshot (existing_at w) (listed w)) h
        (resolve_open-Settled snapshot (existing_at w) (listed w))

  resolve_position-Resolved :
      (w : World fl ex) (snapshot : Snapshot fl)
      → snapshot_at w ≡ snapshot
      → Resolved w (resolve_position config intent side snapshot (checked w))
  unfolding resolve_position
  resolve_position-Resolved w (check_failed e) h = open-Resolved w (check_failed e) h
  resolve_position-Resolved w no_position h = (h, refl)
  resolve_position-Resolved w (open_position e m) h = open-Resolved w (open_position e m) h

  -- However the exchange behaves, the engine answers a failed placement of protective orders
  -- without an exception, and its status is true: there is no matching position and nothing was
  -- sent; or both closing orders were there already and nothing was sent; or the stop order, for
  -- `fallback_submitted` the target order too, was there or was sent and accepted; or the close of
  -- the position was sent, and accepted or not as the status says.
  pub resolve_protective_failure-Resolved :
      (w : World fl ex) → Resolved w (resolve_protective_failure config intent side w)
  unfolding resolve_protective_failure
  resolve_protective_failure-Resolved w = resolve_position-Resolved w (snapshot_at w) refl
