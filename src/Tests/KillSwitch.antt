-- ===== src/Tests/KillSwitch.antt =====
-- The clearance of the kill switch on an exchange with one position and its two closing orders.
use binance_future_agent.Base.{ℕ, String, true, List, [], ◌∷◌}
use binance_future_agent.Base.Int.{pos}
use binance_future_agent.Base.Fixed.{fixed}
use binance_future_agent.Base.Json.{Json, Dict}
use binance_future_agent.Config.{setting}
use binance_future_agent.Executor.{ok, Request, position_risk, open_algo_orders, Exchange, World}
use binance_future_agent.KillSwitch.{Files, build_clearance_report}
use binance_future_agent.KillSwitch.Guarded.{IsGuarded, build_clearance_report-IsGuarded}
use binance_future_agent.Tests.Data.{live_config}

abbrev position : Dict fixed
position = Dict.field "symbol" (Json.str "BTCUSDT") (
    Dict.field "positionAmt" (Json.int (pos 1))
      (Dict.field "positionSide" (Json.str "LONG") Dict.end))

abbrev closing : String → Dict fixed
closing kind = Dict.field "symbol" (Json.str "BTCUSDT") (
    Dict.field "side" (Json.str "SELL") (
      Dict.field "orderType" (Json.str kind)
        (Dict.field "closePosition" (Json.bool true) Dict.end)))

abbrev answers : Request fixed → List (Dict fixed)
answers (position_risk symbol) = position ∷ []
answers (open_algo_orders symbol) = closing "STOP_MARKET" ∷ closing "TAKE_PROFIT_MARKET" ∷ []
answers _ = []

abbrev guarded : Exchange fixed
guarded = record { State = ℕ; call = λ r s. (ok Dict.end, s); rows = λ r s. (ok (answers r), s) }

abbrev start : World fixed guarded
start = record { state = 0; calls = []; store = [] }

abbrev all_there : Files
all_there name = true

build_clearance_report-IsGuarded_example :
    IsGuarded
      (setting live_config "BFA_KILL_SWITCH_FILE" "")
      "20260101T000000Z"
      all_there
      start
      (build_clearance_report live_config "20260101T000000Z" true all_there start).0
build_clearance_report-IsGuarded_example =
    build_clearance_report-IsGuarded live_config "20260101T000000Z" true all_there start
