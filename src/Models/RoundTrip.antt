-- ===== src/Models/RoundTrip.antt =====
-- An intent read back from its dict.
use binance_future_agent.Base.{
  String, false, Option, none, some, List, [], ◌∷◌, ◌≡◌, refl, ap, ◌==◌, arith,
}
use binance_future_agent.Base.Int.{ℤ}
use binance_future_agent.Base.Float.{Float}
use binance_future_agent.Base.Text.{upper, is_blank}
use binance_future_agent.Base.Json.{Json, find, float, text, truthy, text_or_blank, text_at}
use binance_future_agent.Config.{Mode, dry_run, testnet, live, mode_value, parse_mode}
use binance_future_agent.Models.{OrderIntent}
use binance_future_agent.Models.Payload.{
  texts, item_texts, intent_dict, int_or_null, text_or_null, text_unless_null, texts_at, number_or,
  text_or, int_or_none, intent_of_values, intent_from_payload,
}

module _ (fl : Float) where
  open fl use {F, eq, of_int, lit, trunc}

  -- `int` gives the whole number back that `float` made of it.
  abbrev IsExact : ℤ → Type 0
  IsExact n = trunc (of_int n) ≡ some n

  abbrev IsExactWait : Option ℤ → Type 0
  IsExactWait none = Unit
  IsExactWait (some n) = IsExact n

  abbrev IsNonzero : F → Type 0
  IsNonzero x = eq x (lit 0 0) ≡ false

  -- What an intent that the engine writes has: capitals, prices and sizes that are no zeros, and
  -- whole numbers that a float holds exactly.
  pub record IsWritten (i : OrderIntent fl) : Type 0 where
    pub symbol_upper : upper i.symbol ≡ i.symbol
    pub side_upper : upper i.side ≡ i.side
    pub has_quantity : IsNonzero i.quantity
    pub has_entry : IsNonzero i.entry_price
    pub has_stop : IsNonzero i.stop_price
    pub has_target : IsNonzero i.target_price
    pub has_leverage : IsNonzero (of_int i.leverage)
    pub leverage_exact : IsExact i.leverage
    pub has_type : is_blank i.order_type ≡ false
    pub wait_exact : IsExactWait i.limit_wait_seconds

module _ (fl : Float) where
  open fl use {F, eq, of_int, lit, trunc}

  item_texts-texts : (ss : List String) → item_texts (texts {fl = fl} ss) ≡ ss
  unfolding texts item_texts text
  item_texts-texts [] = refl
  item_texts-texts (s ∷ ss) = ap (s ∷◌) (item_texts-texts ss)

  number_or-num : (x d : F) → IsNonzero fl x → number_or {fl = fl} (Json.num x) d ≡ x
  unfolding number_or float
  number_or-num x d h = ground arith

  number_or-int :
      (n : ℤ) (d : F) → IsNonzero fl (of_int n) → number_or {fl = fl} (Json.int n) d ≡ of_int n
  unfolding number_or float
  number_or-int n d h = ground arith

  parse-mode : (m : Mode) → parse_mode (text_or {fl = fl} (Json.str (mode_value m)) "live") ≡ some m
  unfolding parse_mode text_or truthy text ◌==◌
  parse-mode dry_run = refl
  parse-mode testnet = refl
  parse-mode live = refl

  read-wait : (w : Option ℤ) → IsExactWait fl w → int_or_none (int_or_null {fl = fl} w) ≡ some w
  unfolding int_or_none float
  read-wait none h = refl
  read-wait (some n) h = rw h refl

  read-text : (s d : String) → is_blank s ≡ false → text_or {fl = fl} (Json.str s) d ≡ s
  unfolding text_or truthy text
  read-text s d h = ground arith

  read-blank : (s : String) → text_or_blank {fl = fl} (Json.str s) ≡ s
  unfolding text_or_blank truthy text
  read-blank String.[] = refl
  read-blank (String.◌∷◌ c s) = refl

  read-time : (t : Option String) → text_unless_null (text_or_null {fl = fl} t) ≡ t
  unfolding text
  read-time none = refl
  read-time (some s) = refl

  -- Reading the dict of a written intent gives the intent.
  pub intent_from_payload-intent_dict :
      (i : OrderIntent fl) → IsWritten fl i → intent_from_payload (intent_dict i) ≡ some i
  unfolding intent_from_payload intent_of_values intent_dict texts_at text_at ◌==◌ find text truthy
      float
  intent_from_payload-intent_dict i written =
      rw
        (
          number_or-int i.leverage (lit 1 0) written.has_leverage,
          written.leverage_exact,
          parse-mode i.mode,
          read-wait i.limit_wait_seconds written.wait_exact,
          item_texts-texts i.reason_codes,
          number_or-num i.quantity (lit 0 0) written.has_quantity,
          number_or-num i.entry_price (lit 0 0) written.has_entry,
          number_or-num i.stop_price (lit 0 0) written.has_stop,
          number_or-num i.target_price (lit 0 0) written.has_target,
          read-text i.order_type "LIMIT" written.has_type,
          read-blank i.decided_at,
          read-time i.time_in_force,
          written.symbol_upper,
          written.side_upper,
        )
        refl
