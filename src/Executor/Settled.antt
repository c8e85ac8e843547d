-- ===== src/Executor/Settled.antt =====
-- What became of a limit entry, truly of the replies and the calls: src/bfa/execution/executor.py,
-- `_resolve_limit_entry` and `_cancel_unknown_limit_entry`.
use binance_future_agent.Base.{
  ℕ, String, true, false, ◌≡◌, refl, ◌⊎◌, inl, inr, ◌==◌, if◌then◌else◌, Bool-cases,
}
use binance_future_agent.Base.Float
use binance_future_agent.Base.Float.{Float}
use binance_future_agent.Base.Json.{Dict}
use binance_future_agent.Config.{AppConfig}
use binance_future_agent.Models.{OrderIntent}
use binance_future_agent.Executor.Client.{
  Exchange, World, Outcome, ok, err, is_ok, logged, send, pure, ◌>>=◌, query_order, cancel_order,
}
use binance_future_agent.Executor.Orders.{order_status, is_closed_status, executed_quantity}
use binance_future_agent.Executor.Limit.{
  LimitEntry, unfilled_verdict, cancel_open_entry, settle_limit_entry, wait_for_entry,
  resolve_limit_entry,
}
use binance_future_agent.Executor.Protection.{Called}

-- The statuses under which an entry is protected.
abbrev pub IsEntered : String → Type 0
IsEntered status =
    (status ≡ "submitted")
    ⊎ ((status ≡ "entry_order_partial_filled_protected")
        ⊎ (status ≡ "entry_order_reconciled_from_position"))

module _ {fl : Float} {ex : Exchange fl} (config : AppConfig) (intent : OrderIntent fl)
    (id : String) where
  open fl use {lt, lit}

  -- A limit entry of which nothing was executed: by the last reply of the wait, which tells that it is
  -- closed, or, after its cancellation was accepted, by that reply and a later one.
  abbrev pub IsUnfilled : Dict fl → World fl ex → Type 0
  IsUnfilled latest w =
      ((is_closed_status fl (order_status fl latest) ≡ true)
        × (lt (lit 0 0) (executed_quantity fl latest) ≡ false))
      ⊎ (Called (cancel_order intent.symbol id, true) w.calls
          × ((final : Dict fl) × (before : World fl ex) × ((send (query_order intent.symbol id)
                  before).0
                ≡ ok final)
              × (lt (lit 0 0)
                    (Float.max fl (executed_quantity fl latest) (executed_quantity fl final))
                  ≡ false)))

  abbrev pub IsSettled : Dict fl → Outcome (LimitEntry fl) × World fl ex → Type 0
  IsSettled latest (err e, w) = Unit
  IsSettled latest (ok entry, w) =
      ((entry.submitted ≡ true) × IsEntered entry.status)
      ⊎ ((entry.submitted ≡ false)
          × (entry.status ≡ "entry_order_expired_canceled")
          × IsUnfilled latest w)

  cancelled-IsSettled :
      (latest final : Dict fl) (before after : World fl ex)
      → (send (query_order intent.symbol id) before).0 ≡ ok final
      → Called (cancel_order intent.symbol id, true) after.calls
      → IsSettled latest (
        ok (
            unfilled_verdict fl intent final
              (Float.max fl (executed_quantity fl latest) (executed_quantity fl final))),
        after,
      )
  unfolding unfilled_verdict
  cancelled-IsSettled latest final before after answered cancelled =
      elim (Bool-cases
        (lt (lit 0 0) (Float.max fl (executed_quantity fl latest) (executed_quantity fl final)))) [
          | inl filled ↦ rw filled (inl (refl, inr (inl refl)))
          | inr empty ↦
              rw empty (inr (refl, refl, inr (cancelled, (final, before, answered, empty))))
        ]

  queried-IsSettled :
      (latest : Dict fl) (before : World fl ex) (reply : Outcome (Dict fl)) (after : World fl ex)
      → (send (query_order intent.symbol id) before).0 ≡ reply
      → Called (cancel_order intent.symbol id, true) after.calls
      → IsSettled latest (elim reply [
        | ok final ↦ (
          ok (
              unfilled_verdict fl intent final
                (Float.max fl (executed_quantity fl latest) (executed_quantity fl final))),
          after,
        )
        | err e ↦ (err e, after)
      ])
  queried-IsSettled latest before (ok final) after answered logged =
      cancelled-IsSettled latest final before after answered logged
  queried-IsSettled latest before (err e) after answered logged = tt

  open-IsSettled :
      (latest : Dict fl) (w : World fl ex) (reply : Outcome (Dict fl)) (state : ex.State)
      → IsSettled latest (elim reply as (λ r. Outcome (LimitEntry fl) × World fl ex) [
        | ok cancelled ↦
            (send (query_order intent.symbol id) >>= λ final. pure (
                unfilled_verdict fl intent final
                  (Float.max fl (executed_quantity fl latest) (executed_quantity fl final))))
              (logged (cancel_order intent.symbol id) (is_ok reply) state w)
        | err e ↦ (err e, logged (cancel_order intent.symbol id) (is_ok reply) state w)
      ])
  unfolding send
  open-IsSettled latest w (err e) state = tt
  open-IsSettled latest w (ok cancelled) state =
      queried-IsSettled latest (logged (cancel_order intent.symbol id) true state w) _ _ refl
        (inr (inl refl))

  closed-IsSettled :
      (latest : Dict fl) (w : World fl ex)
      → is_closed_status fl (order_status fl latest) ≡ true
      → IsSettled latest (ok (unfilled_verdict fl intent latest (executed_quantity fl latest)), w)
  unfolding unfilled_verdict
  closed-IsSettled latest w closed =
      elim (Bool-cases (lt (lit 0 0) (executed_quantity fl latest))) [
        | inl filled ↦ rw filled (inl (refl, inr (inl refl)))
        | inr empty ↦ rw empty (inr (refl, refl, inl (closed, refl)))
      ]

  settle-IsSettled :
      (latest : Dict fl) (w : World fl ex)
      → IsSettled latest (settle_limit_entry config intent id latest w)
  unfolding settle_limit_entry cancel_open_entry send
  settle-IsSettled latest w = elim (Bool-cases (order_status fl latest == "FILLED")) [
    | inl filled ↦ rw (settle_limit_entry, filled) (inl (refl, inl refl))
    | inr other ↦ elim (Bool-cases (is_closed_status fl (order_status fl latest))) [
      | inl closed ↦ rw (settle_limit_entry, other, closed) (closed-IsSettled latest w closed)
      | inr still_open ↦ rw (settle_limit_entry, other, still_open) (open-IsSettled latest w _ _)
    ]
  ]

  abbrev pub IsSettledAfter :
      Outcome (Dict fl) × World fl ex → Outcome (LimitEntry fl) × World fl ex → Type 0
  IsSettledAfter (err e, before) (ok entry, w) = ⊥
  IsSettledAfter (err e, before) (err e', w) = Unit
  IsSettledAfter (ok latest, before) result = IsSettled latest result

  after_wait-IsSettledAfter :
      (waited : Outcome (Dict fl) × World fl ex)
      → IsSettledAfter waited (elim waited.0 [
        | ok latest ↦ settle_limit_entry config intent id latest waited.1
        | err e ↦ (err e, waited.1)
      ])
  after_wait-IsSettledAfter (ok latest, w) = settle-IsSettled latest w
  after_wait-IsSettledAfter (err e, w) = tt

  pub resolve-IsSettledAfter :
      (polls : ℕ) (w : World fl ex)
      → IsSettledAfter
          (wait_for_entry config intent polls id w)
          (resolve_limit_entry config intent polls id w)
  unfolding resolve_limit_entry
  resolve-IsSettledAfter polls w =
      after_wait-IsSettledAfter (wait_for_entry config intent polls id w)

  -- An entry order that was neither found in the wait nor on the position, under its cancellation.
  abbrev pub IsUnknown : String → World fl ex → Type 0
  IsUnknown status w =
      ((status ≡ "entry_order_unknown_canceled")
        × Called (cancel_order intent.symbol id, true) w.calls)
      ⊎ ((status ≡ "entry_order_unknown_cancel_failed")
          × Called (cancel_order intent.symbol id, false) w.calls)

  pub cancelled-IsUnknown :
      (reply : Outcome (Dict fl)) (state : ex.State) (w : World fl ex)
      → IsUnknown
          (if is_ok reply
            then "entry_order_unknown_canceled"
            else "entry_order_unknown_cancel_failed")
          (logged (cancel_order intent.symbol id) (is_ok reply) state w)
  cancelled-IsUnknown (ok d) state w = inl (refl, inl refl)
  cancelled-IsUnknown (err e) state w = inr (refl, inl refl)
