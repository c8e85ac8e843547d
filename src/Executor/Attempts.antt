-- ===== src/Executor/Attempts.antt =====
-- How often the entry order is sent: src/bfa/execution/executor.py,
-- `_submit_entry_order_with_reprice`.
use binance_future_agent.Base.{
  if◌then◌else◌, ℕ, zero, suc, ◌+◌, ◌≤◌, ◌<◌, String, Bool, true, false, Option, List, [], ◌∷◌, ◌≡◌,
  refl, sym, subst, arith,
}
use binance_future_agent.Base.Float.{Float}
use binance_future_agent.Base.Json.{Items, Dict}
use binance_future_agent.Config.{AppConfig}
use binance_future_agent.Models.{OrderIntent}
use binance_future_agent.Decimal.{Decimals}
use binance_future_agent.Filters.{SymbolExecutionFilters}
use binance_future_agent.Executor.Client.{
  SignedError, Outcome, ok, err, is_ok, Exchange, World, Action, Request, send, logged, raise,
}
use binance_future_agent.Executor.Orders.{client_order_id}
use binance_future_agent.Executor.Reprice.{reprice_max_attempts}
use binance_future_agent.Executor.Entry.{
  entry_answer, entry_round, submit_attempts, submit_entry_order,
}

-- A log that grew by a number of calls that were refused.
abbrev pub Refusals : {A : Type 0} → ℕ → List (A × Bool) → List (A × Bool) → Type 0
Refusals zero cs ds = cs ≡ ds
Refusals (suc n) [] ds = ⊥
Refusals (suc n) ((r, answered) ∷ cs) ds = (answered ≡ false) × Refusals n cs ds

-- The log of a loop that made at most a number of calls: an answered one came last and was the only
-- one, or none was answered.
abbrev pub SingleEntry : {A B : Type 0} → ℕ → List (A × Bool) → Outcome B → List (A × Bool) → Type 0
SingleEntry most before (err e) after = (n : ℕ) × (n ≤ most) × Refusals n after before
SingleEntry most before (ok b) [] = ⊥
SingleEntry most before (ok b) ((r, answered) ∷ after) =
    (answered ≡ true) × ((n : ℕ) × (n < most) × Refusals n after before)

Refusals-extend :
    {A : Type 0} (before : List (A × Bool)) (r : A) (n : ℕ) (after : List (A × Bool))
    → Refusals n after ((r, false) ∷ before)
    → Refusals (suc n) after before
Refusals-extend before r zero after h = subst (λ cs. Refusals 1 cs before) (sym h) (refl, refl)
Refusals-extend before r (suc n) [] h = absurd h
Refusals-extend before r (suc n) ((s, b) ∷ after) (refused, h) =
    (refused, Refusals-extend before r n after h)

-- A refused call, then a loop that makes at most one call fewer.
SingleEntry-extend :
    {A B : Type 0} (before : List (A × Bool)) (r : A) (most : ℕ) (reply : Outcome B)
    (after : List (A × Bool))
    → SingleEntry most ((r, false) ∷ before) reply after
    → SingleEntry (suc most) before reply after
SingleEntry-extend before r most (err e) after (n, bound, h) =
    (suc n, omega arith, Refusals-extend before r n after h)
SingleEntry-extend before r most (ok b) [] h = absurd h
SingleEntry-extend before r most (ok b) ((s, answered) ∷ after) (answer, (n, bound, h)) =
    (answer, (suc n, omega arith, Refusals-extend before r n after h))

SingleEntry-weaken :
    {A B : Type 0} (most limit : ℕ) (before : List (A × Bool)) (reply : Outcome B)
    (after : List (A × Bool))
    → most ≤ limit
    → SingleEntry most before reply after
    → SingleEntry limit before reply after
SingleEntry-weaken most limit before (err e) after le (n, bound, h) = (n, omega arith, h)
SingleEntry-weaken most limit before (ok b) [] le h = absurd h
SingleEntry-weaken most limit before (ok b) ((s, answered) ∷ after) le (answer, (n, bound, h)) =
    (answer, (n, omega arith, h))

-- The post-only reprice limit is six attempts.
reprice_max_attempts-≤ :
    {fl : Float} (config : AppConfig) (intent : OrderIntent fl)
    (filters : Option SymbolExecutionFilters)
    → reprice_max_attempts fl config intent filters ≤ 6
unfolding reprice_max_attempts
reprice_max_attempts-≤ config intent filters = ground arith

module _ {fl : Float} {ex : Exchange fl} where
  -- What follows the answer of a call.
  entry_answer-SingleEntry :
      {B : Type 0} (request : Request fl) (done : Dict fl → B) (stop : SignedError → Bool)
      (retry : SignedError → Action fl ex B) (most : ℕ)
      → ((e : SignedError) (w : World fl ex)
          → SingleEntry most w.calls (retry e w).0 (retry e w).1.calls)
      → (w : World fl ex) (reply : Outcome (Dict fl)) (s : ex.State)
      → let result = entry_answer done stop retry reply (logged request (is_ok reply) s w) in
        SingleEntry (suc most) w.calls result.0 result.1.calls
  unfolding entry_answer
  entry_answer-SingleEntry request done stop retry most ih w (ok response) s =
      (refl, (0, omega arith, refl))
  entry_answer-SingleEntry {B = B} request done stop retry most ih w (err e) s =
      let w' = logged request false s w in
      elim (stop e)
        as (λ b.
          let result : Outcome B × World fl ex = (if b then raise e else retry e) w' in
          SingleEntry (suc most) w.calls result.0 result.1.calls) [
            | true ↦ (1, omega arith, (refl, refl))
            | false ↦
                SingleEntry-extend w.calls request most (retry e w').0 (retry e w').1.calls
                  (ih e w')
          ]

  -- One attempt and the rest of the loop.
  entry_round-SingleEntry :
      {B : Type 0} (request : Request fl) (done : Dict fl → B) (stop : SignedError → Bool)
      (retry : SignedError → Action fl ex B) (most : ℕ)
      → ((e : SignedError) (w : World fl ex)
          → SingleEntry most w.calls (retry e w).0 (retry e w).1.calls)
      → (w : World fl ex)
      → let result = entry_round request done stop retry w in
        SingleEntry (suc most) w.calls result.0 result.1.calls
  unfolding entry_round send
  entry_round-SingleEntry request done stop retry most ih w =
      entry_answer-SingleEntry request done stop retry most ih w (ex.call request w.state).0
        (ex.call request w.state).1

module _ {fl : Float} {ex : Exchange fl} (dec : Decimals fl) (config : AppConfig)
    (filters : Option SymbolExecutionFilters) (position : Option String)
    (intent : OrderIntent fl) where
  submit_attempts-SingleEntry :
      (first : String) (left index : ℕ) (attempts : Items fl) (w : World fl ex)
      → let result =
          submit_attempts {fl = fl} {ex = ex} dec config filters position intent first left index
            attempts w in
        SingleEntry left w.calls result.0 result.1.calls
  unfolding submit_attempts send
  submit_attempts-SingleEntry first zero index attempts w = (0, omega arith, refl)
  submit_attempts-SingleEntry first (suc left) index attempts w =
      entry_round-SingleEntry _ _ _ _ left
        (λ e w'. submit_attempts-SingleEntry first left (index + 1) _ w') w

  -- However the exchange behaves, the submission of an entry calls `new_order` at most six times;
  -- when it returns, the last call was answered and each one before was refused, so that the
  -- exchange accepted one entry; when it raises, every call was refused.
  pub submit_entry_order-SingleEntry :
      (w : World fl ex)
      → let result = submit_entry_order {fl = fl} {ex = ex} dec config filters position intent w in
        SingleEntry 6 w.calls result.0 result.1.calls
  unfolding submit_entry_order
  submit_entry_order-SingleEntry w =
      SingleEntry-weaken _ 6 w.calls _ _ (reprice_max_attempts-≤ config intent filters) (
        submit_attempts-SingleEntry (client_order_id fl intent)
          (reprice_max_attempts fl config intent filters) 0 Items.nil w)
