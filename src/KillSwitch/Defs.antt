-- ===== src/KillSwitch/Defs.antt =====
-- src/bfa/ops/kill_switch.py: the checks of the open positions and the clearance. The files are
-- known by their names; a rename that the file system refuses is left
-- out, as is the blank name, for which `with_name` raises.
use binance_future_agent.Base.{
  ℕ, String, ◌<>◌, Bool, true, false, not, ◌&&◌, ◌||◌, Option, none, some, List, ◌++◌, map, select,
  any, length, is_empty, dedupe, when, ◌==◌, if◌then◌else◌, or_default,
}
use binance_future_agent.Base.Float.{Float}
use binance_future_agent.Base.Text.{upper}
use binance_future_agent.Base.Json.{Json, Dict, get, float, text, truthy, text_or_blank, is_yes}
use binance_future_agent.Config.{AppConfig, setting}
use binance_future_agent.Executor.{
  Outcome, ok, err, position_risk, open_algo_orders, Exchange, World, Action, fetch, pure, ◌>>=◌,
}

-- Which files there are.
abbrev pub Files : Type 0
Files = String → Bool

-- `path.replace(target)`
unfoldable pub renamed : String → String → Files → Files
renamed path target files =
    λ name. if name == path then false else if name == target then true else files name

-- `path.with_name(f"{path.name}.cleared-{stamp}")`
unfoldable pub archived : String → String → String
archived path stamp = path <> (".cleared-" <> stamp)

module _ (fl : Float) where
  -- `PositionProtectionCheck`
  pub record ProtectionCheck : Type 0 where
    pub symbol : String
    pub position_side : String
    pub position_amt : fl.F
    pub has_stop_loss : Bool
    pub has_take_profit : Bool
    pub matching_algo_order_count : ℕ

  -- `KillSwitchClearanceReport`
  pub record ClearanceReport : Type 0 where
    pub kill_switch_path : String
    pub kill_switch_active : Bool
    pub eligible : Bool
    pub executed : Bool
    pub reason_codes : List String
    pub position_checks : List ProtectionCheck
    pub archived_path : Option String

module _ {fl : Float} where
  open fl use {F, lt, eq, lit}

  -- `_float`
  unfoldable pub amount_of : Dict fl → F
  amount_of position = or_default (float (get position "positionAmt")) (lit 0 0)

  unfoldable pub is_open_position : Dict fl → Bool
  is_open_position position = not (eq (amount_of position) (lit 0 0))

  -- `_position_side`
  unfoldable pub side_of : Dict fl → String
  side_of position =
      let raw = upper (text_or_blank (get position "positionSide")) in
      if raw == "LONG" || raw == "SHORT"
      then raw
      else if lt (lit 0 0) (amount_of position)
      then "LONG"
      else "SHORT"

  -- `_close_position_order`
  unfoldable pub closes_position : Json fl → Bool
  closes_position (Json.bool b) = b
  closes_position v = is_yes (text v)

  -- An order that closes a position.
  unfoldable pub is_closing_order : Dict fl → Dict fl → Bool
  is_closing_order position order =
      let side = get order "positionSide" in
      upper (text_or_blank (get order "symbol")) == upper (text_or_blank (get position "symbol"))
      && (upper (if truthy side then text side else side_of position) == side_of position
          && (upper (text_or_blank (get order "side"))
                == (if lt (lit 0 0) (amount_of position) then "SELL" else "BUY")
              && closes_position (get order "closePosition")))

  unfoldable pub has_order_type : String → Dict fl → Bool
  has_order_type kind order = upper (text_or_blank (get order "orderType")) == kind

  -- The check of one position against the open orders.
  unfoldable pub check_of : List (Dict fl) → Dict fl → ProtectionCheck fl
  check_of orders position =
      let matching = select (is_closing_order position) orders in
      record {
        symbol = upper (text_or_blank (get position "symbol"));
        position_side = side_of position;
        position_amt = amount_of position;
        has_stop_loss = any (has_order_type "STOP_MARKET") matching;
        has_take_profit = any (has_order_type "TAKE_PROFIT_MARKET") matching;
        matching_algo_order_count = length matching;
      }

  -- `check.protected`
  abbrev pub is_protected : ProtectionCheck fl → Bool
  is_protected check = check.has_stop_loss && check.has_take_profit

  -- The report and the files, from the checks.
  unfoldable pub cleared :
      String → String → Bool → Files → List (ProtectionCheck fl) → ClearanceReport fl × Files
  cleared path stamp execute files checks =
      let active = files path in
      let unprotected = not (is_empty (select (λ check. not (is_protected check)) checks)) in
      let eligible = active && not unprotected in
      let executed = execute && eligible in
      (
        record {
          kill_switch_path = path;
          kill_switch_active = active;
          eligible = eligible;
          executed = executed;
          reason_codes = dedupe (
              when (not active) "kill_switch_inactive"
              ++ when unprotected "unprotected_open_positions"
              ++ when (active && not unprotected) "all_open_positions_protected"
              ++ when (execute && not eligible) "clearance_not_eligible");
          position_checks = checks;
          archived_path = if executed then some (archived path stamp) else none;
        },
        if executed then renamed path (archived path stamp) files else files,
      )

  abbrev pub reported :
      String
      → String
      → Bool
      → Files
      → Outcome (List (ProtectionCheck fl))
      → Outcome (ClearanceReport fl) × Files
  reported path stamp execute files (err e) = (err e, files)
  reported path stamp execute files (ok checks) =
      let (report, files') = cleared path stamp execute files checks in (ok report, files')

module _ {fl : Float} {ex : Exchange fl} where
  -- `_position_protection_checks`; a call without a symbol asks for all of them.
  unfoldable pub position_protection_checks : Action fl ex (List (ProtectionCheck fl))
  position_protection_checks = fetch (position_risk "") >>= λ positions.
      fetch (open_algo_orders "") >>= λ orders.
      pure (map (check_of orders) (select is_open_position positions))

  -- `build_kill_switch_clearance_report`, with the stamp of the time and the files.
  unfoldable pub build_clearance_report :
      AppConfig
      → String
      → Bool
      → Files
      → World fl ex
      → (Outcome (ClearanceReport fl) × Files) × World fl ex
  build_clearance_report config stamp execute files w =
      let (checks, w') = position_protection_checks w in
      (reported (setting config "BFA_KILL_SWITCH_FILE" "") stamp execute files checks, w')
