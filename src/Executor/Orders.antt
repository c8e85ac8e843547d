-- ===== src/Executor/Orders.antt =====
-- src/bfa/execution/executor.py: the helpers that read an intent, a reply or an error.
use binance_future_agent.Base.{
  ◌-◌, String, ◌<>◌, Bool, true, false, not, ◌&&◌, ◌||◌, Option, none, some, ◌==◌, any,
  if◌then◌else◌, or_default,
}
use binance_future_agent.Base.Int.{ℤ, negsuc, eqb_ℤ}
use binance_future_agent.Base.Float.{Float}
use binance_future_agent.Base.Text.{
  upper, lower, strip, is_blank, has_part, digits_of, take_text, len_text,
}
use binance_future_agent.Base.Json.{Json, Dict, get, float, text, truthy, text_or_blank, is_yes}
use binance_future_agent.Config.{AppConfig, hedge_mode}
use binance_future_agent.Models.{OrderIntent}
use binance_future_agent.Executor.Client.{SignedError}
use package.text.Mathlib.Text.{starts_with}

-- `exc.binance_code == code`
abbrev has_code : SignedError → ℤ → Bool
has_code e code = elim e.binance_code [ none ↦ false | some c ↦ eqb_ℤ c code ]

-- `_is_post_only_repriceable_error`
unfoldable pub is_post_only_repriceable_error : SignedError → Bool
is_post_only_repriceable_error e =
    has_code e (negsuc 5021)
    || (has_part (lower e.binance_message) "post only" || has_part (lower e.binance_message) "gtx")

-- `_is_invalid_leverage_error`
unfoldable pub is_invalid_leverage_error : SignedError → Bool
is_invalid_leverage_error e =
    has_code e (negsuc 4027)
    || (has_part (lower e.binance_message) "leverage"
        && has_part (lower e.binance_message) "not valid")

-- `exc.binance_code != -4046`, negated.
unfoldable pub is_margin_type_unchanged : SignedError → Bool
is_margin_type_unchanged e = has_code e (negsuc 4045)

-- `_is_existing_close_position_algo_error`
unfoldable pub is_existing_close_position_error : SignedError → Bool
is_existing_close_position_error e =
    has_code e (negsuc 4129)
    && (has_part (lower e.binance_message) "closeposition"
        && has_part (lower e.binance_message) "existing")

-- `_is_stale_unknown_order_error`
unfoldable pub is_stale_unknown_order_error : SignedError → Bool
is_stale_unknown_order_error e =
    has_code e (negsuc 2010)
    && (has_part (lower e.binance_message) "unknown order"
        || (has_part (lower e.binance_message) "does not exist"
            || has_part (lower e.binance_message) "not found"))

-- `_opposite_side`
unfoldable pub opposite_side : String → String
opposite_side side = if upper side == "BUY" then "SELL" else "BUY"

module _ (fl : Float) where
  open fl use {F, lt, le, eq, lit}

  abbrev pub int_json : Option ℤ → Json fl
  int_json none = Json.null
  int_json (some n) = Json.int n

  -- `_signed_error_payload`
  unfoldable pub error_payload : SignedError → Dict fl
  error_payload e = Dict.field "endpoint" (Json.str e.endpoint) (
      Dict.field "code" (int_json e.binance_code)
        (Dict.field "message" (Json.str e.binance_message) Dict.end))

  -- `_is_limit_order`
  unfoldable pub is_limit_order : OrderIntent fl → Bool
  is_limit_order intent = upper intent.order_type == "LIMIT"

  -- `_entry_order_price`
  unfoldable pub entry_order_price : OrderIntent fl → Option F
  entry_order_price intent = if is_limit_order intent then some intent.entry_price else none

  -- `_entry_time_in_force`: a blank or missing value counts as `GTX`.
  unfoldable pub order_time_in_force : OrderIntent fl → Option String
  order_time_in_force intent =
      if is_limit_order intent
      then some (elim intent.time_in_force [
        | none ↦ "GTX"
        | some t ↦ if is_blank t then "GTX" else upper t
      ])
      else none

  -- `_position_side`
  unfoldable pub position_side : OrderIntent fl → AppConfig → Option String
  position_side intent config =
      if hedge_mode config
      then some (if upper intent.side == "BUY" then "LONG" else "SHORT")
      else none

  -- `_client_order_id`, with no suffix and with one.
  abbrev pub id_base : OrderIntent fl → String
  id_base intent = "bfa-" <> (lower intent.symbol <> ("-" <> digits_of intent.decided_at))

  unfoldable pub client_order_id : OrderIntent fl → String
  client_order_id intent = take_text 36 (id_base intent)

  unfoldable pub client_order_id_with : OrderIntent fl → String → String
  client_order_id_with intent suffix =
      take_text (36 - len_text ("-" <> suffix)) (id_base intent) <> ("-" <> suffix)

  -- `_order_status`
  unfoldable pub order_status : Dict fl → String
  order_status payload = upper (text_or_blank (get payload "status"))

  -- `_TERMINAL_ORDER_STATUSES` and `_CLOSED_ORDER_STATUSES`
  unfoldable pub is_closed_status : String → Bool
  is_closed_status s =
      s == "CANCELED" || (s == "REJECTED" || (s == "EXPIRED" || s == "EXPIRED_IN_MATCH"))

  unfoldable pub is_terminal_status : String → Bool
  is_terminal_status s = s == "FILLED" || is_closed_status s

  -- `a or b or 0.0` of values that may be missing; zero counts as missing.
  abbrev pub nonzero : Option F → Option F
  nonzero none = none
  nonzero (some x) = if eq x (lit 0 0) then none else some x

  abbrev pub first_of_two : Option F → Option F → Option F
  first_of_two (some x) other = some x
  first_of_two none other = other

  -- `_executed_quantity`
  unfoldable pub executed_quantity : Dict fl → F
  executed_quantity payload =
      or_default
        (first_of_two (nonzero (float (get payload "executedQty")))
          (nonzero (float (get payload "executedQuantity"))))
        (lit 0 0)

  -- `_float(value) or default`
  unfoldable pub float_or : Json fl → F → F
  float_or v default = or_default (nonzero (float v)) default

  -- `_is_micro_grid_intent` of this file.
  unfoldable pub is_micro_grid_order : OrderIntent fl → Bool
  is_micro_grid_order intent =
      lower (strip (text_or_blank (get intent.metadata "strategy_leg"))) == "micro_grid"
      || any (λ reason. lower (strip reason) == "strategy_leg:micro_grid") intent.reason_codes

  -- `str(order.get("orderType") or order.get("type") or "").upper()`
  unfoldable pub algo_type : Dict fl → String
  algo_type order =
      let own = get order "orderType" in
      upper (text_or_blank (if truthy own then own else get order "type"))

  abbrev close_flag : Json fl → Bool
  close_flag (Json.bool b) = b
  close_flag v = is_yes (text v)

  -- No position side is asked for, or the order has it.
  abbrev side_agrees : Option String → String → Bool
  side_agrees none actual = true
  side_agrees (some wanted) actual = is_blank wanted || actual == upper wanted

  -- `_matching_close_position_algo_order`
  unfoldable pub matching_close_order : String → String → Option String → Dict fl → Bool
  matching_close_order symbol side position order =
      upper (text_or_blank (get order "symbol")) == upper symbol
      && (upper (text_or_blank (get order "side")) == upper side
          && (side_agrees position (upper (text_or_blank (get order "positionSide")))
              && ((algo_type order == "STOP_MARKET" || algo_type order == "TAKE_PROFIT_MARKET")
                  && close_flag (get order "closePosition"))))

  -- `_protective_order_kind(order) == "STOP"`, and the same for `"TAKE_PROFIT"`.
  unfoldable pub is_stop_kind : Dict fl → Bool
  is_stop_kind order = algo_type order == "STOP_MARKET" || starts_with (algo_type order) "STOP"

  unfoldable pub is_target_kind : Dict fl → Bool
  is_target_kind order =
      not (is_stop_kind order)
      && (algo_type order == "TAKE_PROFIT_MARKET" || starts_with (algo_type order) "TAKE_PROFIT")
