-- ===== src/Risk/Reasons.antt =====
-- src/bfa/execution/risk.py: what an intent reads from the reasons of a decision, `key:value` texts.
use binance_future_agent.Base.{
  String, Option, none, some, List, [], ◌∷◌, ◌==◌, if◌then◌else◌, or_default,
}
use binance_future_agent.Base.Int.{ℤ, pos, max_ℤ, min_ℤ}
use binance_future_agent.Base.Float.{Float}
use binance_future_agent.Base.Text.{strip, upper, is_blank, split_colon}
use binance_future_agent.Base.Json.{Json, Dict, put}

-- `_reason_values(reasons).get(key)`: the last reason with the key counts.
unfoldable pub reason_value : List String → String → Option String
reason_value [] key = none
reason_value (reason ∷ reasons) key =
    let later = reason_value reasons key in
    elim later [
      | some v ↦ some v
      | none ↦ elim (split_colon reason) [
        | none ↦ none
        | some (k, v) ↦ if k == key then some v else none
      ]
    ]

-- `_entry_order_type`
unfoldable pub entry_order_type : List String → String
entry_order_type reasons =
    if upper (strip (or_default (reason_value reasons "entry_order_type") "market")) == "LIMIT"
    then "LIMIT"
    else "MARKET"

-- `value or default`
abbrev pub non_blank_or : String → String → String
non_blank_or default value = if is_blank value then default else value

-- `_entry_time_in_force`
unfoldable pub entry_time_in_force : List String → Option String
entry_time_in_force reasons =
    if entry_order_type reasons == "LIMIT"
    then some (
        non_blank_or "GTX"
          (upper (strip (or_default (reason_value reasons "entry_time_in_force") "GTX"))))
    else none

module _ (fl : Float) where
  -- `int(float(text))` under `except (TypeError, ValueError)`.
  unfoldable pub whole_seconds : String → Option ℤ
  whole_seconds s = elim (fl.parse s) [ none ↦ none | some x ↦ fl.trunc x ]

  -- `max(1, min(parsed, 90))`, where 45 stands for what cannot be read.
  abbrev clamp_wait : Option ℤ → ℤ
  clamp_wait parsed = max_ℤ (pos 1) (min_ℤ (or_default parsed (pos 45)) (pos 90))

  -- `_entry_limit_wait_seconds`
  unfoldable pub entry_limit_wait_seconds : List String → Option ℤ
  entry_limit_wait_seconds reasons =
      if entry_order_type reasons == "LIMIT"
      then some (
          clamp_wait
            (whole_seconds (or_default (reason_value reasons "limit_entry_max_wait_seconds") "45")))
      else none

  put_reason : List String → Dict fl → String → Dict fl
  put_reason reasons metadata key = elim (reason_value reasons key) [
    | none ↦ metadata
    | some v ↦ if is_blank (strip v) then metadata else put metadata key (Json.str (strip v))
  ]

  -- `{**metadata, **_route_metadata_from_reasons(reasons)}`
  unfoldable pub with_route_metadata : List String → Dict fl → Dict fl
  unfolding put_reason
  with_route_metadata reasons metadata =
      let add = put_reason reasons in
      add
        (add
          (add
            (add
              (add (add (add (add metadata "strategy_leg") "regime_label") "route_decision")
                "execution_symbol_preference")
              "source_symbol")
            "execution_symbol")
          "execution_quote_asset")
        "execution_price_ratio"
