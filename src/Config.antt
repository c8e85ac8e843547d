-- ===== src/Config.antt =====
-- src/bfa/config.py: the runtime mode and the lookup of settings, and the readers of settings that
-- src/bfa/execution/risk.py, src/bfa/execution/executor.py and src/bfa/execution/sizing.py keep.
use Prim.Native.Char.{code}
use binance_future_agent.Base.{
  nat_eq, String, Bool, Option, none, some, List, [], ◌∷◌, ◌==◌, if◌then◌else◌, or_default,
}
use binance_future_agent.Base.Int.{ℤ, pos}
use binance_future_agent.Base.Text.{strip, upper, lower, parse_int, is_blank}
use binance_future_agent.Base.Json.{is_yes, json_ops}
use binance_future_agent.Base.Float.{Float}

-- `RuntimeMode`
pub data Mode : Type 0 where
  dry_run testnet live : Mode

-- `mode.value`
abbrev pub mode_value : Mode → String
mode_value dry_run = "dry_run"
mode_value testnet = "testnet"
mode_value live = "live"

-- `RuntimeMode(value)`; nothing for a `ValueError`.
unfoldable pub parse_mode : String → Option Mode
parse_mode s =
    if s == "dry_run"
    then some dry_run
    else if s == "testnet"
    then some testnet
    else if s == "live"
    then some live
    else none

-- `AppConfig`
abbrev pub AppConfig : Type 0
AppConfig = List (String × String)

setting? : AppConfig → String → Option String
setting? [] key = none
setting? ((k, v) ∷ config) key = let rest = setting? config key in if k == key then some v else rest

-- `config.get(key, default)`
unfoldable pub setting : AppConfig → String → String → String
unfolding setting?
setting config key default = or_default (setting? config key) default

-- `value.split(",")`, as the part before the first comma and the others.
comma_parts : String → String × List String
comma_parts String.[] = (String.[], [])
comma_parts (String.◌∷◌ c s) =
    let (part, rest) = comma_parts s in
    if nat_eq (code c) b',' then (String.[], part ∷ rest) else (String.◌∷◌ c part, rest)

-- The parts stripped and in capitals, without blank ones.
symbols_of : List String → List String
symbols_of [] = []
symbols_of (part ∷ parts) =
    let rest = symbols_of parts in if is_blank (strip part) then rest else upper (strip part) ∷ rest

-- `_split_csv_symbols`
unfoldable pub csv_symbols : String → List String
unfolding comma_parts symbols_of
csv_symbols s = let (part, rest) = comma_parts s in symbols_of (part ∷ rest)

-- `config.get_list(key)`
unfoldable pub setting_list : AppConfig → String → List String
setting_list config key = csv_symbols (setting config key "")

-- `_int_config`
unfoldable pub int_config : AppConfig → String → ℤ
int_config config key = or_default (parse_int (setting config key "")) (pos 0)

-- `_float_config`, with `_float_or_zero`.
unfoldable pub float_config : (fl : Float) → AppConfig → String → fl.F
float_config fl config key = or_default (fl.parse (setting config key "")) (fl.lit 0 0)

-- `multi_position_enabled` and `_same_symbol_opposite_positions_enabled`
unfoldable pub multi_position_enabled : AppConfig → Bool
multi_position_enabled config = is_yes (setting config "BFA_MULTI_POSITION_ENABLED" "")

unfoldable pub opposite_positions_enabled : AppConfig → Bool
opposite_positions_enabled config =
    is_yes (setting config "BFA_ALLOW_SAME_SYMBOL_OPPOSITE_POSITIONS" "")

-- `_protective_orders_required`
unfoldable pub protective_orders_required : AppConfig → Bool
protective_orders_required config = is_yes (setting config "BFA_REQUIRE_PROTECTIVE_ORDERS" "true")

-- `hedge` position mode, which `_position_side` and `_reduce_only_supported` test.
unfoldable pub hedge_mode : AppConfig → Bool
hedge_mode config = lower (strip (setting config "BFA_POSITION_MODE" "one_way")) == "hedge"

-- `_binance_margin_type`
unfoldable pub binance_margin_type : AppConfig → String
binance_margin_type config =
    if lower (strip (setting config "BFA_MARGIN_MODE" "isolated")) == "cross"
    then "CROSSED"
    else "ISOLATED"

-- A run on settings opens all of these with this one name.
unfoldable pub config_ops : Unit {0}
unfolding parse_mode setting int_config float_config multi_position_enabled
    opposite_positions_enabled protective_orders_required hedge_mode binance_margin_type json_ops
config_ops = tt
