-- ===== src/Decision/Parse.antt =====
-- src/bfa/ai/decision.py: the readers of a decision payload (`_text`, `_float`, `_int`, `_reasons`),
-- the context of a decision, and the features that validation takes from it.
use binance_future_agent.Base.{
  String, ◌<>◌, Option, none, some, List, [], ◌∷◌, ◌++◌, if◌then◌else◌, contains, text_lt,
}
use binance_future_agent.Base.Int.{ℤ}
use binance_future_agent.Base.Float.{Float}
use binance_future_agent.Base.Text.{strip, is_blank}
use binance_future_agent.Base.Json.{Json, Items, Dict, get, float, int_of, text}
use binance_future_agent.Models.{RiskLimits}

-- `DECISION_SCHEMA_FIELDS`, sorted.
abbrev pub schema_fields : List String
schema_fields =
    "confidence" ∷ "decision" ∷ "entry_price" ∷ "hold_time_minutes" ∷ "notional_usdt" ∷ "reasons"
    ∷ "side" ∷ "stop_price" ∷ "target_price" ∷ []

-- `prefix + key` for each key of a list that another list lacks.
labelled_missing : String → List String → List String → List String
labelled_missing prefix keys [] = []
labelled_missing prefix keys (k ∷ wanted) =
    let rest = labelled_missing prefix keys wanted in
    if contains keys k then rest else (prefix <> k) ∷ rest

-- `sorted(values)` of a set of texts.
insert_text : String → List String → List String
insert_text s [] = s ∷ []
insert_text s (x ∷ xs) = let rest = insert_text s xs in if text_lt x s then x ∷ rest else s ∷ x ∷ xs

unfoldable pub sort_texts : List String → List String
unfolding insert_text
sort_texts [] = []
sort_texts (x ∷ xs) = insert_text x (sort_texts xs)

module _ {fl : Float} where
  keys_of : Dict fl → List String
  keys_of Dict.end = []
  keys_of (Dict.field k v rest) = k ∷ keys_of rest

  -- The errors for the set of keys.
  unfoldable pub key_errors : Dict fl → List String
  unfolding keys_of labelled_missing
  key_errors payload =
      labelled_missing "missing_field:" (keys_of payload) schema_fields
      ++ labelled_missing "unexpected_field:" schema_fields (sort_texts (keys_of payload))

  -- `_text`
  unfoldable pub text_only : Json fl → Option String
  text_only (Json.str s) = some s
  text_only _ = none

  -- `_float` and `_int`, which take no Boolean for a number.
  unfoldable pub number_of : Json fl → Option fl.F
  number_of (Json.bool b) = none
  number_of v = float v

  unfoldable pub whole_of : Json fl → Option ℤ
  whole_of (Json.bool b) = none
  whole_of v = int_of v

  reason_items : Items fl → List String
  reason_items Items.nil = []
  reason_items (Items.cons v rest) =
      let s = strip (text v) in
      let more = reason_items rest in if is_blank s then more else s ∷ more

  -- `_reasons`
  unfoldable pub reasons_of : Json fl → List String
  unfolding reason_items
  reasons_of (Json.arr items) = reason_items items
  reasons_of _ = []

module _ (fl : Float) where
  -- `AiDecisionContext`, less what only `to_dict` reads.
  pub record AiDecisionContext : Type 0 where
    pub candidate : Dict fl
    pub risk_limits : RiskLimits fl
    pub quant_setup : Option (Dict fl)

  positive_feature : Json fl → String → Option fl.F
  positive_feature (Json.obj features) key = elim (number_of (get features key)) [
    | none ↦ none
    | some x ↦ if fl.le x (fl.lit 0 0) then none else some x
  ]
  positive_feature _ key = none

  -- `_reference_price`
  unfoldable pub reference_price : AiDecisionContext → Option fl.F
  unfolding positive_feature
  reference_price context = positive_feature (get context.candidate "features") "reference_price"

  -- `_min_executable_notional`
  unfoldable pub min_executable_notional : AiDecisionContext → Option fl.F
  unfolding positive_feature
  min_executable_notional context =
      positive_feature (get context.candidate "features") "min_executable_notional"
