-- ===== src/Executor/Client.antt =====
-- The signed exchange client as src/bfa/execution/executor.py uses it, an interface with no law: a
-- call may answer anything or fail. A run keeps the exchange's state, the calls that it made with
-- whether each was answered, and what it wrote to the event store.
use binance_future_agent.Base.{String, Bool, true, false, Option, List, ◌∷◌}
use binance_future_agent.Base.Int.{ℤ}
use binance_future_agent.Base.Float.{Float}
use binance_future_agent.Base.Json.{Json, Dict}
use binance_future_agent.Models.{OrderIntent, RiskDecision}

-- `BinanceSignedError`, in the fields that the engine reads.
pub record SignedError : Type 0 where
  pub endpoint : String
  pub binance_code : Option ℤ
  pub binance_message : String

pub data Outcome (A : Type 0) : Type 0 where
  ok : A → Outcome A
  err : SignedError → Outcome A

abbrev pub is_ok : {A : Type 0} → Outcome A → Bool
is_ok (ok _) = true
is_ok (err _) = false

module _ (fl : Float) where
  -- The arguments of `new_order`.
  pub record OrderRequest : Type 0 where
    pub symbol : String
    pub side : String
    pub order_type : String
    pub quantity : fl.F
    pub price : Option fl.F
    pub time_in_force : Option String
    pub reduce_only : Bool
    pub position_side : Option String
    pub client_order_id : String

  -- The arguments of `new_algo_order`.
  pub record AlgoRequest : Type 0 where
    pub symbol : String
    pub side : String
    pub order_type : String
    pub stop_price : fl.F
    pub close_position : Bool
    pub position_side : Option String
    pub client_algo_id : String

  -- The calls of the client, with their arguments.
  pub data Request : Type 0 where
    test_order : OrderRequest → Request
    new_order : OrderRequest → Request
    new_algo_order : AlgoRequest → Request
    change_margin_type : String → String → Request
    change_initial_leverage : String → ℤ → Request
    account : Request
    position_risk : String → Request
    open_algo_orders : String → Request
    query_order : String → String → Request
    cancel_order : String → String → Request
    cancel_algo_order : String → Json fl → Json fl → Request

  -- What a run persists: `persist_order_intent` with its status, and `persist_exchange_response`
  -- with its type; the documents that the latter gets are left out of the model.
  pub data Artifact : Type 0 where
    order_intent : String → OrderIntent fl → RiskDecision → Artifact
    exchange_response : String → OrderIntent fl → Artifact

  pub record Exchange : Type 1 where
    pub State : Type 0
    -- A call that answers with a dict, and one that answers with a list of dicts.
    pub call : Request → State → Outcome (Dict fl) × State
    pub rows : Request → State → Outcome (List (Dict fl)) × State

module _ (fl : Float) (ex : Exchange fl) where
  pub record World : Type 0 where
    pub state : ex.State
    -- The latest call first.
    pub calls : List (Request fl × Bool)
    -- The latest artifact first.
    pub store : List (Artifact fl)

module _ (fl : Float) (ex : Exchange fl) where
  abbrev pub Action : Type 0 → Type 0
  Action A = World fl ex → Outcome A × World fl ex

module _ {fl : Float} {ex : Exchange fl} where
  abbrev pub logged : Request fl → Bool → ex.State → World fl ex → World fl ex
  logged r answered s w = record w { state = s; calls = (r, answered) ∷ w.calls }

  unfoldable pub send : Request fl → Action fl ex (Dict fl)
  send r w = let (reply, s) = ex.call r w.state in (reply, logged r (is_ok reply) s w)

  unfoldable pub fetch : Request fl → Action fl ex (List (Dict fl))
  fetch r w = let (reply, s) = ex.rows r w.state in (reply, logged r (is_ok reply) s w)

  abbrev pub pure : {A : Type 0} → A → Action fl ex A
  pure a w = (ok a, w)

  abbrev pub raise : {A : Type 0} → SignedError → Action fl ex A
  raise e w = (err e, w)

  infixl 5 ◌>>=◌
  abbrev pub ◌>>=◌ : {A B : Type 0} → Action fl ex A → (A → Action fl ex B) → Action fl ex B
  ◌>>=◌ m f w = let (r, w') = m w in elim r [ ok a ↦ f a w' | err e ↦ raise e w' ]

  -- `try: ... except BinanceSignedError as exc: ...`
  abbrev pub attempt : {A : Type 0} → Action fl ex A → Action fl ex (Outcome A)
  attempt m w = let (r, w') = m w in (ok r, w')
