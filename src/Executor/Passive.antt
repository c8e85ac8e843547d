-- ===== src/Executor/Passive.antt =====
-- Where the prices of later attempts lie: src/bfa/execution/executor.py,
-- `_repriced_post_only_intent`.
use binance_future_agent.Base.{Bool, ◌⊎◌, ◌<◌, ℕ, ◌+◌, ◌-◌, ◌≡◌, true, false}
use binance_future_agent.Base.Int.{ℤ, pos, ◌≤ℤ◌}
use binance_future_agent.Decimal.{Decimals}
use binance_future_agent.Base.Float.{Float}
use binance_future_agent.Models.{OrderIntent}

module _ (fl : Float) (dec : Decimals fl) where
  -- A price that is asked for at a number of ticks from the first one: where it is a buy, at least
  -- these below it, or the intent is asked for as it was, the first price being no more than these and a tick
  -- above zero; where it is not, at least these above it.
  abbrev pub IsPassive : Bool → ℕ → ℕ → ℕ → OrderIntent fl → OrderIntent fl → Type 0
  IsPassive true price tick offset intent asked =
      ((adjusted : ℤ) × (asked.entry_price ≡ dec.to_float dec.places adjusted)
        × (pos 1 ≤ℤ adjusted)
        × (adjusted ≤ℤ pos (price - offset)))
      ⊎ ((asked ≡ intent) × (price < offset + tick))
  IsPassive false price tick offset intent asked =
      (adjusted : ℤ) × (asked.entry_price ≡ dec.to_float dec.places adjusted)
      × (pos (price + offset) ≤ℤ adjusted)
