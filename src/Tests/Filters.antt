-- ===== src/Tests/Filters.antt =====
-- The order filters at concrete orders.
use binance_future_agent.Base.{ℕ, ◌+◌, ◌*◌, ◌≤◌, ◌<◌, true, some, ◌≡◌, ◌↔◌, is_empty}
use binance_future_agent.Base.Int.{pos, negsuc, ◌≤ℤ◌}
use binance_future_agent.Base.Fixed.{fixed, amount}
use binance_future_agent.Filters.{round_down, round_order, apply}
use binance_future_agent.Filters.Gates.{MeetsFilters, apply_accepts_iff, round_order-le}
use binance_future_agent.Filters.Rounding.{round_down_grid, round_down_idem}
use binance_future_agent.Tests.Data.{exact, btc}

-- 0.12345 at 64000.17 is rounded down to 0.123 at 64000.1.
apply_accepts_iff_example :
    let values =
      apply fixed exact btc (amount 12345 5) (amount 6400017 2) (amount 63000 0) (amount 66000 0) in
    (is_empty values.rejection_reasons ≡ true)
    ↔ MeetsFilters 8 btc
        (round_order btc (pos 12345000) (pos 6400017000000) (pos 6300000000000) (pos 6600000000000))
apply_accepts_iff_example =
    apply_accepts_iff fixed exact btc (amount 12345 5) (amount 6400017 2) (amount 63000 0)
      (amount 66000 0)

round_order-le_example :
    let r = round_order btc (pos 12345000) (pos 6400017000000) (pos 1) (pos 1) in
    (r.quantity ≤ℤ pos 12345000)
    × (r.entry ≤ℤ pos 6400017000000)
    × (r.notional ≤ℤ pos (12345000 * 6400017000000))
round_order-le_example = round_order-le btc 12345000 6400017000000 (pos 1) (pos 1)

round_down_idem_example :
    round_down (round_down (negsuc 16) (some (pos 5))) (some (pos 5))
    ≡ round_down (negsuc 16) (some (pos 5))
round_down_idem_example = round_down_idem (negsuc 16) (some (pos 5))

round_down_grid_example :
    (k : ℕ) × (round_down (pos 17) (some (pos 5)) ≡ pos (k * 5)) × (k * 5 ≤ 17) × (17 < k * 5 + 5)
round_down_grid_example = round_down_grid 17 4
