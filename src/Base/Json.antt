-- ===== src/Base/Json.antt =====
-- The values of Python's `dict[str, Any]` payloads: what `json.loads` returns and what the exchange
-- client passes on.
use Prim.Native.Nat.{ℕ, zero, suc, ◌+◌, ◌/◌, ◌%◌}
use Prim.Native.String.{String}
use mathlib.Core.Bool.{Bool, true, false, not, ◌||◌}
use mathlib.Core.Option.{Option, none, some}
use binance_future_agent.Base.Tests.{◌==◌, if◌then◌else◌, ltb, or_default}
use binance_future_agent.Base.Int.{ℤ, pos, negsuc, eqb_ℤ}
use binance_future_agent.Base.Float.{Float}
use binance_future_agent.Base.Text.{is_blank, strip, lower, char_or, parse_int, text_ops}

-- The decimal digits of a number, in front of a text. A number has fewer digits than its size
-- and one, so that is fuel enough.
show_digits : ℕ → ℕ → String → String
show_digits zero n acc = acc
show_digits (suc f) n acc =
    let acc' : String = String.◌∷◌ (char_or "0" (n % 10) "0123456789") acc in
    let more = show_digits f (n / 10) acc' in if ltb n 10 then acc' else more

-- `str(n)`
unfoldable pub show_int : ℤ → String
unfolding show_digits
show_int (pos n) = show_digits (n + 1) n String.[]
show_int (negsuc n) = String.◌∷◌ "-" (show_digits (n + 2) (n + 1) String.[])

module _ (fl : Float) where
  mutual
    pub data Json : Type 0 where
      null : Json
      bool : Bool → Json
      int : ℤ → Json
      num : fl.F → Json
      str : String → Json
      arr : Items → Json
      obj : Dict → Json

    pub data Items : Type 0 where
      nil : Items
      cons : Json → Items → Items

    -- The last entry of a repeated key is the one that counts, and none is repeated here.
    pub data Dict : Type 0 where
      end : Dict
      field : String → Json → Dict → Dict

module _ {fl : Float} where
  unfoldable pub find : Dict fl → String → Option (Json fl)
  find Dict.end k = none
  find (Dict.field j v rest) k = let later = find rest k in if j == k then some v else later

  -- `payload.get(key)`
  abbrev pub get : Dict fl → String → Json fl
  get d k = or_default (find d k) Json.null

  -- `bool(value)`
  unfoldable pub truthy : Json fl → Bool
  truthy Json.null = false
  truthy (Json.bool b) = b
  truthy (Json.int n) = not (eqb_ℤ n (pos 0))
  truthy (Json.num x) = not (fl.eq x (fl.lit 0 0))
  truthy (Json.str s) = not (is_blank s)
  truthy (Json.arr Items.nil) = false
  truthy (Json.arr (Items.cons _ _)) = true
  truthy (Json.obj Dict.end) = false
  truthy (Json.obj (Dict.field _ _ _)) = true

  -- `float(value)` under `except (TypeError, ValueError): None`.
  unfoldable pub float : Json fl → Option fl.F
  float (Json.bool b) = some (fl.of_int (pos (if b then 1 else 0)))
  float (Json.int n) = some (fl.of_int n)
  float (Json.num x) = some x
  float (Json.str s) = fl.parse s
  float _ = none

  -- `int(value)` under `except (TypeError, ValueError): None`.
  unfoldable pub int_of : Json fl → Option ℤ
  int_of (Json.bool b) = some (pos (if b then 1 else 0))
  int_of (Json.int n) = some n
  int_of (Json.num x) = fl.trunc x
  int_of (Json.str s) = parse_int s
  int_of _ = none

  -- `str(value)`. The text of a list or a dict is only ever compared with names, which begin
  -- with no bracket.
  unfoldable pub text : Json fl → String
  text Json.null = "None"
  text (Json.bool b) = if b then "True" else "False"
  text (Json.int n) = show_int n
  text (Json.num x) = fl.show x
  text (Json.str s) = s
  text (Json.arr _) = "[...]"
  text (Json.obj _) = "{...}"

  -- `str(value or "")`
  unfoldable pub text_or_blank : Json fl → String
  text_or_blank v = if truthy v then text v else ""

  -- `str(payload.get(key, ""))`
  unfoldable pub text_at : Dict fl → String → String
  text_at d k = elim (find d k) [ none ↦ "" | some v ↦ text v ]

-- `s.strip().lower() in {"1", "true", "yes", "on"}`
unfoldable pub is_yes : String → Bool
is_yes s = let t = lower (strip s) in t == "1" || (t == "true" || (t == "yes" || t == "on"))

module _ {fl : Float} where
  -- `{**payload, key: value}`
  unfoldable pub put : Dict fl → String → Json fl → Dict fl
  put Dict.end k w = Dict.field k w Dict.end
  put (Dict.field j v rest) k w =
      let rest' = put rest k w in if j == k then Dict.field j w rest else Dict.field j v rest'

-- A run on payloads opens all of these with this one name.
unfoldable pub json_ops : Unit {0}
unfolding find truthy float int_of text text_or_blank text_at is_yes put show_int text_ops
json_ops = tt
