-- ===== src/Executor/Closed.antt =====
-- What is left of a limit entry after the wait: src/bfa/execution/executor.py,
-- `_resolve_limit_entry`.
use binance_future_agent.Base.{ℕ, String, true, ◌≡◌, refl, ◌⊎◌, arith}
use binance_future_agent.Base.Float.{Float}
use binance_future_agent.Base.Json.{Dict}
use binance_future_agent.Config.{AppConfig}
use binance_future_agent.Models.{OrderIntent}
use binance_future_agent.Executor.Client.{Exchange, World, Outcome, ok, err, cancel_order, send}
use binance_future_agent.Executor.Orders.{order_status, is_terminal_status}
use binance_future_agent.Executor.Limit.{
  LimitEntry, settle_limit_entry, cancel_open_entry, resolve_limit_entry, wait_for_entry,
}
use binance_future_agent.Executor.Protection.{Called}

module _ {fl : Float} {ex : Exchange fl} (config : AppConfig) (intent : OrderIntent fl)
    (id : String) where
  -- An entry whose status was terminal, or whose cancellation was accepted.
  abbrev pub Closed : Dict fl → Outcome (LimitEntry fl) × World fl ex → Type 0
  Closed latest (err e, w) = Unit
  Closed latest (ok entry, w) =
      (is_terminal_status fl (order_status fl latest) ≡ true)
      ⊎ Called (cancel_order intent.symbol id, true) w.calls

  settle_limit_entry-Closed :
      (latest : Dict fl) (w : World fl ex)
      → Closed latest (settle_limit_entry config intent id latest w)
  unfolding settle_limit_entry cancel_open_entry send is_terminal_status
  settle_limit_entry-Closed latest w = ground arith

  -- The error of the wait, or an entry that is closed after its last reply.
  abbrev pub ClosedAfter :
      Outcome (Dict fl) × World fl ex → Outcome (LimitEntry fl) × World fl ex → Type 0
  ClosedAfter (err e, waited) result = result ≡ (err e, waited)
  ClosedAfter (ok latest, waited) result = Closed latest result

  waited-ClosedAfter :
      (waited : Outcome (Dict fl) × World fl ex)
      → ClosedAfter waited (elim waited.0 [
        | ok latest ↦ settle_limit_entry config intent id latest waited.1
        | err e ↦ (err e, waited.1)
      ])
  waited-ClosedAfter (ok latest, w) = settle_limit_entry-Closed latest w
  waited-ClosedAfter (err e, w) = refl

  -- However the exchange behaves: an error of the wait for a limit entry is passed on, and where the
  -- resolution of the entry returns, the entry is not left open, since the last status that was seen
  -- in the wait is terminal, or the order was cancelled and the exchange accepted that.
  pub resolve_limit_entry-Closed :
      (polls : ℕ) (w : World fl ex)
      → ClosedAfter
          (wait_for_entry config intent polls id w)
          (resolve_limit_entry config intent polls id w)
  unfolding resolve_limit_entry
  resolve_limit_entry-Closed polls w = waited-ClosedAfter (wait_for_entry config intent polls id w)
