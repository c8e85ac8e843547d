-- ===== src/Executor/Entry.antt =====
-- src/bfa/execution/executor.py: `_submit_entry_order_with_reprice`.
use binance_future_agent.Base.{
  ℕ, zero, suc, ◌+◌, String, ◌<>◌, Bool, true, not, ◌||◌, Option, none, some, [], ◌∷◌, ◌++◌,
  if◌then◌else◌, nat_eq,
}
use binance_future_agent.Base.Int.{pos}
use binance_future_agent.Base.Float.{Float}
use binance_future_agent.Base.Json.{Json, Items, Dict, put, show_int}
use binance_future_agent.Config.{AppConfig}
use binance_future_agent.Models.{OrderIntent}
use binance_future_agent.Decimal.{Decimals}
use binance_future_agent.Filters.{SymbolExecutionFilters}
use binance_future_agent.Executor.Client.{
  SignedError, Outcome, ok, err, Exchange, Action, Request, new_order, send, pure, raise, attempt,
  ◌>>=◌,
}
use binance_future_agent.Executor.Orders.{
  entry_order_price, order_time_in_force, client_order_id, client_order_id_with,
  is_post_only_repriceable_error, int_json,
}
use binance_future_agent.Executor.Margin.{snoc_item}
use binance_future_agent.Executor.Reprice.{
  reprice_ticks, reprice_max_attempts, repriced_post_only_intent,
}

-- The error raised when no attempt was made.
abbrev not_submitted_error : SignedError
not_submitted_error = record {
  endpoint = "/fapi/v1/order";
  binance_code = none;
  binance_message = "entry order was not submitted";
}

module _ (fl : Float) where
  -- `EntryOrderSubmission`
  pub record EntrySubmission : Type 0 where
    pub intent : OrderIntent fl
    pub client_order_id : String
    pub response : Dict fl

  price_json : Option fl.F → Json fl
  price_json none = Json.null
  price_json (some x) = Json.num x

  -- The arguments of `new_order` for an entry.
  unfoldable pub entry_request : OrderIntent fl → String → Option String → Request fl
  entry_request intent id position = new_order (record {
    symbol = intent.symbol;
    side = intent.side;
    order_type = intent.order_type;
    quantity = intent.quantity;
    price = entry_order_price fl intent;
    time_in_force = order_time_in_force fl intent;
    reduce_only = intent.reduce_only;
    position_side = position;
    client_order_id = id;
  })

  -- The records of an attempt, without its times.
  unfoldable pub attempt_record : ℕ → String → OrderIntent fl → String → Dict fl → Json fl
  unfolding price_json
  attempt_record index id intent status rest = Json.obj (
      Dict.field "attempt" (Json.int (pos (index + 1))) (
        Dict.field "client_order_id" (Json.str id) (
          Dict.field "price" (price_json (entry_order_price fl intent))
            (Dict.field "status" (Json.str status) rest))))

  reprice_report : Items fl → OrderIntent fl → OrderIntent fl → Json fl
  reprice_report attempts original final = Json.obj (
      Dict.field "enabled" (Json.bool true) (
        Dict.field "attempts" (Json.arr attempts) (
          Dict.field "original_entry_price" (Json.num original.entry_price)
            (Dict.field "final_entry_price" (Json.num final.entry_price) Dict.end))))

  -- What an accepted attempt returns: the first as it is, a later one with the record of the
  -- attempts.
  unfoldable pub accepted_submission :
      OrderIntent fl → OrderIntent fl → ℕ → String → Items fl → Dict fl → EntrySubmission
  unfolding reprice_report
  accepted_submission original current index id attempts response =
      if nat_eq index 0
      then record { intent = current; client_order_id = id; response = response }
      else record {
        intent = record current {
          reason_codes =
              current.reason_codes
              ++ (("post_only_repriced_attempt:" <> show_int (pos (index + 1))) ∷ []);
          metadata =
              put current.metadata "post_only_reprice" (reprice_report attempts original current);
        };
        client_order_id = id;
        response = put response "post_only_reprice" (reprice_report attempts original current);
      }

module _ {fl : Float} (dec : Decimals fl) (config : AppConfig)
    (filters : Option SymbolExecutionFilters) (intent : OrderIntent fl) where
  -- The intent of an attempt: the first is the one given.
  unfoldable pub attempt_intent : ℕ → OrderIntent fl
  attempt_intent index =
      if nat_eq index 0
      then intent
      else repriced_post_only_intent fl dec intent filters index (reprice_ticks fl config)

  unfoldable pub attempt_id : String → ℕ → String
  attempt_id first index =
      if nat_eq index 0 then first else client_order_id_with fl intent ("r" <> show_int (pos index))

module _ {fl : Float} {ex : Exchange fl} where
  -- What the answer of an attempt leads to.
  unfoldable pub entry_answer :
      {B : Type 0}
      → (Dict fl → B)
      → (SignedError → Bool)
      → (SignedError → Action fl ex B)
      → Outcome (Dict fl)
      → Action fl ex B
  entry_answer done stop retry (ok response) = pure (done response)
  entry_answer done stop retry (err e) = if stop e then raise e else retry e

  unfoldable pub entry_round :
      {B : Type 0}
      → Request fl
      → (Dict fl → B)
      → (SignedError → Bool)
      → (SignedError → Action fl ex B)
      → Action fl ex B
  entry_round request done stop retry = attempt (send request) >>= entry_answer done stop retry

module _ {fl : Float} {ex : Exchange fl} (dec : Decimals fl) (config : AppConfig)
    (filters : Option SymbolExecutionFilters) (position : Option String)
    (intent : OrderIntent fl) where
  -- The loop over the attempts, by how many are left.
  unfoldable pub submit_attempts : String → ℕ → ℕ → Items fl → Action fl ex (EntrySubmission fl)
  submit_attempts first zero index attempts = raise not_submitted_error
  submit_attempts first (suc left) index attempts =
      let current = attempt_intent dec config filters intent index in
      let id = attempt_id dec config filters intent first index in
      entry_round (entry_request fl current id position)
        (λ response.
          let attempts' =
            snoc_item fl attempts (attempt_record fl index id current "accepted" Dict.end) in
          accepted_submission fl intent current index id attempts' response)
        (λ e. not (is_post_only_repriceable_error e) || nat_eq left 0)
        (λ e.
          let failed =
            Dict.field "code" (int_json fl e.binance_code)
              (Dict.field "message" (Json.str e.binance_message) Dict.end) in
          submit_attempts first left (index + 1)
            (snoc_item fl attempts (attempt_record fl index id current "rejected" failed)))

  -- `_submit_entry_order_with_reprice`
  unfoldable pub submit_entry_order : Action fl ex (EntrySubmission fl)
  submit_entry_order =
      submit_attempts (client_order_id fl intent) (reprice_max_attempts fl config intent filters) 0
        Items.nil
