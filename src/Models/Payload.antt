-- ===== src/Models/Payload.antt =====
-- The dicts of execution records: `OrderIntent.to_dict` and `RiskDecision.to_dict` of
-- src/bfa/execution/models.py, and `_intent_from_payload`, with which
-- src/bfa/ops/pending_limit_watchdog.py reads an intent back.
use binance_future_agent.Base.{String, Option, none, some, List, [], ◌∷◌, if◌then◌else◌, or_default}
use binance_future_agent.Base.Int.{ℤ}
use binance_future_agent.Base.Float
use binance_future_agent.Base.Float.{Float}
use binance_future_agent.Base.Text.{upper}
use binance_future_agent.Base.Json.{
  Json, Items, Dict, find, get, float, text, truthy, text_or_blank, text_at,
}
use binance_future_agent.Config.{Mode, mode_value, parse_mode}
use binance_future_agent.Models.{OrderIntent, RiskDecision, estimated_initial_margin}

letters : String → List String
letters String.[] = []
letters (String.◌∷◌ c s) = String.◌∷◌ c String.[] ∷ letters s

module _ {fl : Float} where
  unfoldable pub texts : List String → Items fl
  texts [] = Items.nil
  texts (s ∷ ss) = Items.cons (Json.str s) (texts ss)

  abbrev pub text_or_null : Option String → Json fl
  text_or_null none = Json.null
  text_or_null (some s) = Json.str s

  abbrev pub int_or_null : Option ℤ → Json fl
  int_or_null none = Json.null
  int_or_null (some n) = Json.int n

  -- `OrderIntent.to_dict`
  unfoldable pub intent_dict : OrderIntent fl → Dict fl
  intent_dict i = Dict.field "symbol" (Json.str i.symbol) (
      Dict.field "side" (Json.str i.side) (
        Dict.field "quantity" (Json.num i.quantity) (
          Dict.field "notional_usdt" (Json.num i.notional_usdt) (
            Dict.field "estimated_initial_margin_usdt" (Json.num (estimated_initial_margin fl i)) (
              Dict.field "entry_price" (Json.num i.entry_price) (
                Dict.field "stop_price" (Json.num i.stop_price) (
                  Dict.field "target_price" (Json.num i.target_price) (
                    Dict.field "leverage" (Json.int i.leverage) (
                      Dict.field "mode" (Json.str (mode_value i.mode)) (
                        Dict.field "decided_at" (Json.str i.decided_at) (
                          Dict.field "order_type" (Json.str i.order_type) (
                            Dict.field "time_in_force" (text_or_null i.time_in_force) (
                              Dict.field "limit_wait_seconds" (int_or_null i.limit_wait_seconds) (
                                Dict.field "reduce_only" (Json.bool i.reduce_only) (
                                  Dict.field "reason_codes" (Json.arr (texts i.reason_codes)) (
                                    Dict.field "metadata" (Json.obj i.metadata)
                                      Dict.end))))))))))))))))

  -- `RiskDecision.to_dict`
  unfoldable pub risk_dict : RiskDecision → Dict fl
  risk_dict r = Dict.field "accepted" (Json.bool r.accepted) (
      Dict.field "reason_codes" (Json.arr (texts r.reason_codes))
        (Dict.field "warnings" (Json.arr (texts r.warnings)) Dict.end))

  unfoldable pub item_texts : Items fl → List String
  item_texts Items.nil = []
  item_texts (Items.cons v vs) = text v ∷ item_texts vs

  key_texts : Dict fl → List String
  key_texts Dict.end = []
  key_texts (Dict.field k v d) = k ∷ key_texts d

  -- `[str(item) for item in value]`; nothing for a value that is no iterable.
  texts_of : Json fl → Option (List String)
  texts_of (Json.arr items) = some (item_texts items)
  texts_of (Json.obj d) = some (key_texts d)
  texts_of (Json.str s) = some (letters s)
  texts_of _ = none

  -- `[str(item) for item in payload.get(key, [])]`
  unfoldable pub texts_at : Dict fl → String → Option (List String)
  unfolding texts_of item_texts key_texts letters
  texts_at d k = elim (find d k) [ none ↦ some [] | some v ↦ texts_of v ]

  -- `_float(value) or default`
  unfoldable pub number_or : Json fl → fl.F → fl.F
  number_or v default = Float.or_else fl (float v) default

  -- `str(value or default)`
  unfoldable pub text_or : Json fl → String → String
  text_or v default = if truthy v then text v else default

  abbrev pub text_unless_null : Json fl → Option String
  text_unless_null Json.null = none
  text_unless_null v = some (text v)

  -- `_int_or_none`; nothing where `int` raises.
  unfoldable pub int_or_none : Json fl → Option (Option ℤ)
  int_or_none v = elim (float v) [
    | none ↦ some none
    | some x ↦ elim (fl.trunc x) [ none ↦ none | some n ↦ some (some n) ]
  ]

  abbrev dict_or_empty : Json fl → Dict fl
  dict_or_empty (Json.obj d) = d
  dict_or_empty _ = Dict.end

  -- The intent of values that were read.
  unfoldable pub intent_of_values :
      Dict fl
      → Option ℤ
      → Option Mode
      → Option (Option ℤ)
      → Option (List String)
      → Option (OrderIntent fl)
  intent_of_values d (some leverage) (some mode) (some wait) (some codes) =
      let quantity = number_or (get d "quantity") (fl.lit 0 0) in
      let entry = number_or (get d "entry_price") (fl.lit 0 0) in
      some (record {
        symbol = upper (text_at d "symbol");
        side = upper (text_at d "side");
        quantity = quantity;
        notional_usdt = or_default (float (get d "notional_usdt")) (fl.mul quantity entry);
        entry_price = entry;
        stop_price = number_or (get d "stop_price") (fl.lit 0 0);
        target_price = number_or (get d "target_price") (fl.lit 0 0);
        leverage = leverage;
        mode = mode;
        decided_at = text_or_blank (get d "decided_at");
        order_type = text_or (get d "order_type") "LIMIT";
        time_in_force = text_unless_null (get d "time_in_force");
        limit_wait_seconds = wait;
        reduce_only = truthy (get d "reduce_only");
        reason_codes = codes;
        metadata = dict_or_empty (get d "metadata");
      })
  intent_of_values d _ _ _ _ = none

  -- `_intent_from_payload`; nothing where it raises, or for a mode that is none of the program's.
  unfoldable pub intent_from_payload : Dict fl → Option (OrderIntent fl)
  intent_from_payload d =
      intent_of_values d (fl.trunc (number_or (get d "leverage") (fl.lit 1 0)))
        (parse_mode (text_or (get d "mode") "live")) (int_or_none (get d "limit_wait_seconds"))
        (texts_at d "reason_codes")
