-- ===== src/Watchdog/Repriced.antt =====
-- The identifier of an entry that was accepted at a later attempt, and the one under which the
-- watchdog asks for it.
use Prim.Native.String.append
use binance_future_agent.Base.{
  ℕ, zero, suc, ◌+◌, ◌-◌, ◌≤◌, String, ◌<>◌, false, Option, ◌≡◌, ◌≢◌, refl, sym, ap, ◌∙◌, arith,
  ◌==◌, nat_eq, Bool-cases, Option-cases, ==_iff, inl, inr,
}
use binance_future_agent.Base.Int.{ℤ, pos, leb_ℤ}
use binance_future_agent.Base.Float.{Float}
use binance_future_agent.Base.Text.{take_text, len_text}
use binance_future_agent.Base.Json.{Json, Items, Dict, find, get, put, truthy, show_int}
use binance_future_agent.Config.{AppConfig}
use binance_future_agent.Models.{OrderIntent}
use binance_future_agent.Decimal.{Decimals}
use binance_future_agent.Filters.{SymbolExecutionFilters}
use binance_future_agent.Executor.{
  id_base, client_order_id, client_order_id_with, accepted_submission, attempt_intent, attempt_id,
  is_micro_grid_order, reanchor, at_entry_price, at_repriced, repriced_post_only_intent,
  reprice_ticks, tick_of,
}
use binance_future_agent.Watchdog.Tables.{intent_client_order_id}

len-append : (s t : String) → len_text (s <> t) ≡ len_text s + len_text t
unfolding len_text
len-append String.[] t = ap len_text (append.nil t) ∙ omega arith
len-append (String.◌∷◌ c s) t =
    ap len_text (append.cons c s t) ∙ ap (λ n. n + 1) (len-append s t) ∙ omega arith

take_all : (n : ℕ) (s : String) → len_text s ≤ n → take_text n s ≡ s
unfolding len_text take_text
take_all zero String.[] h = refl
take_all zero (String.◌∷◌ c s) h = ground arith
take_all (suc n) String.[] h = refl
take_all (suc n) (String.◌∷◌ c s) h = ap (String.◌∷◌ c) (take_all n s (omega arith))

ids_differ :
    (base suffix : String)
    → len_text base + len_text ("-" <> suffix) ≤ 36
    → take_text 36 base ≢ take_text (36 - len_text ("-" <> suffix)) base <> ("-" <> suffix)
unfolding len_text
ids_differ base suffix short = λ same.
    let dash = "-" <> suffix in
    let whole = take_all 36 base (omega arith) in
    let part = take_all (36 - len_text dash) base (omega arith) in
    let equal = ap len_text (sym whole ∙ same ∙ ap (λ t. t <> dash) part) in
    let longer = len-append base dash in
    let mark = len-append "-" suffix in omega (arith, equal, longer, mark)

module _ {fl : Float} where
  get-put :
      (d : Dict fl) (j k : String) (v : Json fl) → (j == k) ≡ false → get (put d j v) k ≡ get d k
  unfolding find put
  get-put Dict.end j k v h = ground arith
  get-put (Dict.field i w d) j k v h = elim (Bool-cases (i == j)) [
    | inl same ↦ let other : (i == k) ≡ false = cc ((==_iff i j).0 same, h) in ground (arith, other)
    | inr other ↦ ground (arith, get-put d j k v)
  ]

  -- The parts of an intent that its identifier is made of.
  abbrev SameName : OrderIntent fl → OrderIntent fl → Type 0
  SameName a b =
      (a.symbol ≡ b.symbol)
      × (a.decided_at ≡ b.decided_at)
      × (get a.metadata "client_order_id" ≡ get b.metadata "client_order_id")

  at_entry_price-SameName :
      (intent : OrderIntent fl) (price quantity notional : fl.F) (note key : String)
      → (mark : Dict fl → Dict fl) → (key == "client_order_id") ≡ false
      → SameName (at_entry_price fl intent price quantity notional note key mark) intent
  unfolding at_entry_price
  at_entry_price-SameName intent price quantity notional note key mark h =
      elim (Bool-cases (is_micro_grid_order fl intent)) [
        | inr plain ↦ rw plain (refl, refl, refl)
        | inl grid ↦ elim (Option-cases (reanchor fl intent price).report) [
          | inl missing ↦ rw (grid, missing) (refl, refl, refl)
          | inr (report, made) ↦
              rw (grid, made)
                (
                  refl,
                  refl,
                  get-put intent.metadata key "client_order_id" (Json.obj (mark report)) h,
                )
        ]
      ]

  at_repriced-SameName :
      (dec : Decimals fl) (intent : OrderIntent fl) (adjusted : ℤ)
      → SameName (at_repriced fl dec intent adjusted) intent
  unfolding at_repriced ◌==◌
  at_repriced-SameName dec intent adjusted = elim (Bool-cases (leb_ℤ adjusted (pos 0))) [
    | inl low ↦ rw low (refl, refl, refl)
    | inr high ↦ rw high (at_entry_price-SameName intent _ _ _ _ _ _ refl)
  ]

  repriced-SameName :
      (dec : Decimals fl) (intent : OrderIntent fl) (filters : Option SymbolExecutionFilters)
      → (index ticks : ℕ)
      → SameName (repriced_post_only_intent fl dec intent filters index ticks) intent
  unfolding repriced_post_only_intent
  repriced-SameName dec intent filters index ticks = elim (Option-cases (tick_of filters)) [
    | inl missing ↦ rw (missing, repriced_post_only_intent) (refl, refl, refl)
    | inr (tick, known) ↦ rw (known, repriced_post_only_intent) (at_repriced-SameName dec intent _)
  ]

  -- The intent of a later attempt that was accepted has the name of the first.
  accepted-SameName :
      (dec : Decimals fl) (config : AppConfig) (filters : Option SymbolExecutionFilters)
      → (intent : OrderIntent fl) (index : ℕ) (id : String) (attempts : Items fl)
        (response : Dict fl)
      → nat_eq index 0 ≡ false
      → SameName
          (accepted_submission fl intent
            (attempt_intent dec config filters intent index)
            index
            id
            attempts
            response).intent
          intent
  unfolding accepted_submission attempt_intent ◌==◌
  accepted-SameName dec config filters intent index id attempts response later =
      let (symbol, time, explicit) =
        repriced-SameName dec intent filters index (reprice_ticks fl config) in
      rw later (symbol, time, get-put _ "post_only_reprice" "client_order_id" _ refl ∙ explicit)

  same-id :
      (a b : OrderIntent fl)
      → SameName a b
      → get b.metadata "client_order_id" ≡ Json.null
      → intent_client_order_id a ≡ client_order_id fl b
  unfolding intent_client_order_id client_order_id truthy
  same-id a b (symbol, time, explicit) none_given = rw (explicit ∙ none_given, symbol, time) refl

  accepted-id :
      (dec : Decimals fl) (config : AppConfig) (filters : Option SymbolExecutionFilters)
      → (intent current : OrderIntent fl) (index : ℕ) (attempts : Items fl) (response : Dict fl)
      → nat_eq index 0 ≡ false
      → (accepted_submission fl intent current index
          (attempt_id dec config filters intent (client_order_id fl intent) index)
          attempts
          response).client_order_id
        ≡ client_order_id_with fl intent ("r" <> show_int (pos index))
  unfolding accepted_submission attempt_id
  accepted-id dec config filters intent current index attempts response later = rw later refl

  -- An entry that was accepted at a later attempt, and whose intent names no order, has another
  -- identifier than the one that the watchdog asks for, where both fit the 36 characters.
  pub accepted-other_id :
      (dec : Decimals fl) (config : AppConfig) (filters : Option SymbolExecutionFilters)
      → (intent : OrderIntent fl) (index : ℕ) (attempts : Items fl) (response : Dict fl)
      → nat_eq index 0 ≡ false
      → get intent.metadata "client_order_id" ≡ Json.null
      → len_text (id_base fl intent) + len_text ("-" <> ("r" <> show_int (pos index))) ≤ 36
      → let made =
          accepted_submission fl intent
            (attempt_intent dec config filters intent index)
            index
            (attempt_id dec config filters intent (client_order_id fl intent) index)
            attempts
            response in
        intent_client_order_id made.intent ≢ made.client_order_id
  unfolding client_order_id client_order_id_with
  accepted-other_id dec config filters intent index attempts response later none_given short =
      λ same.
        let name =
          accepted-SameName dec config filters intent index
            (attempt_id dec config filters intent (client_order_id fl intent) index) attempts
            response later in
        ids_differ (id_base fl intent) ("r" <> show_int (pos index)) short (
          sym (same-id _ intent name none_given)
          ∙ same
          ∙ accepted-id dec config filters intent (attempt_intent dec config filters intent index)
              index attempts response later)
