-- ===== src/Tests/Executor.antt =====
-- The execution engine at concrete exchanges: one that accepts everything, and one that refuses
-- the closing orders and sees a position.
use binance_future_agent.Base.{
  ◌==◌, arith, ℕ, ◌+◌, All, Bool, true, false, none, some, List, [], ◌∷◌, ◌≡◌, ◌≢◌, refl, ◌⊎◌,
}
use binance_future_agent.Base.Int.{ℤ, ◌≤ℤ◌, pos, negsuc}
use binance_future_agent.Base.Fixed.{fixed}
use binance_future_agent.Base.Text.{text_ops}
use binance_future_agent.Base.Json.{Json, Dict, json_ops}
use binance_future_agent.Config.{
  AppConfig, parse_mode, setting, protective_orders_required, config_ops, live,
}
use binance_future_agent.Models.{RiskDecision}
use binance_future_agent.Executor.{
  wait_for_entry, resolve_limit_entry, leverage_fallback_sequence, SignedError, Outcome, ok, err,
  Request, new_algo_order, position_risk, Exchange, World, Engine, RunInput,
  resolve_protective_failure, submit_entry_order, run, OrderRequest, test_order, protect_entry,
  EntrySubmission,
}
use binance_future_agent.Executor.Protection.{Resolved, resolve_protective_failure-Resolved}
use binance_future_agent.Executor.Attempts.{SingleEntry, submit_entry_order-SingleEntry}
use binance_future_agent.Executor.Safety.{IsCleared, run-Silent, run-TestOnly}
use binance_future_agent.Executor.Recovered.{IsIdentifying}
use binance_future_agent.Executor.Protected.{Protected}
use binance_future_agent.Executor.Closed.{ClosedAfter, resolve_limit_entry-Closed}
use binance_future_agent.Executor.Leverage.{Descends, leverage_fallback_sequence-Descends}
use binance_future_agent.Executor.Guarded.{Guarded, protect_entry-Guarded}
use binance_future_agent.Tests.Data.{exact, btc, limits, state, live_config, intent, validation}

abbrev refusal : SignedError
refusal = record {
  endpoint = "/fapi/v1/order";
  binance_code = some (negsuc 5021);
  binance_message = "Post Only order will be rejected";
}

abbrev position : Dict fixed
position = Dict.field "symbol" (Json.str "BTCUSDT") (
    Dict.field "positionAmt" (Json.int (pos 1))
      (Dict.field "positionSide" (Json.str "BOTH") Dict.end))

abbrev answer : Request fixed → Outcome (Dict fixed)
answer (new_algo_order order) = err refusal
answer _ = ok Dict.end

abbrev positions : Request fixed → List (Dict fixed)
positions (position_risk symbol) = position ∷ []
positions _ = []

abbrev refusing : Exchange fixed
refusing = record { State = ℕ; call = λ r s. (answer r, s); rows = λ r s. (ok (positions r), s) }

abbrev start : World fixed refusing
start = record { state = 0; calls = []; store = [] }

resolve_protective_failure-Resolved_example :
    Resolved {ex = refusing} live_config intent none start
      (resolve_protective_failure live_config intent none start)
resolve_protective_failure-Resolved_example =
    resolve_protective_failure-Resolved live_config intent none start

submit_entry_order-SingleEntry_example :
    let result =
      submit_entry_order {ex = refusing} exact live_config (some btc) none intent start in
    SingleEntry 6 [] result.0 result.1.calls
submit_entry_order-SingleEntry_example =
    submit_entry_order-SingleEntry exact live_config (some btc) none intent start

abbrev engine : AppConfig → Engine fixed
engine config = record {
  config = config;
  limits = limits;
  has_client = true;
  has_store = true;
  exists = λ path. false;
  polls = 90;
}

abbrev input : RunInput fixed
input = record {
  symbol = "BTCUSDT";
  validation = validation;
  decided_at = "2026-01-01T00:00:00Z";
  risk_state = state;
  filters = some btc;
  now = "2026-01-01T00:00:00Z";
}

run-Silent_example :
    ((run exact (engine live_config) input start).1.calls ≡ [])
    ⊎ IsCleared exact (engine live_config) input
run-Silent_example = run-Silent exact (engine live_config) input start

abbrev testnet_config : AppConfig
testnet_config = ("BFA_MODE", "testnet") ∷ live_config

is_testnet : parse_mode (setting testnet_config "BFA_MODE" "") ≢ some live
unfolding config_ops text_ops ◌==◌
is_testnet = λ e. ground arith

run-TestOnly_example :
    let after = (run exact (engine testnet_config) input start).1.calls in
    (after ≡ [])
    ⊎ ((order : OrderRequest fixed) × (answered : Bool) × (after
          ≡ (test_order order, answered) ∷ []))
run-TestOnly_example = run-TestOnly exact (engine testnet_config) input start is_testnet

abbrev accepted_risk : RiskDecision
accepted_risk = record { accepted = true; reason_codes = "risk_accepted" ∷ []; warnings = [] }

protection_required : protective_orders_required live_config ≡ true
unfolding config_ops json_ops text_ops ◌==◌
protection_required = refl

-- This exchange lists no open order.
identifying : IsIdentifying refusing
identifying symbol _ = tt

protect_entry-Guarded_example :
    Guarded
      (engine live_config)
      none
      "submitted"
      intent
      accepted_risk
      (protect_entry (engine live_config) none "submitted" intent accepted_risk start)
protect_entry-Guarded_example =
    protect_entry-Guarded (engine live_config) none "submitted" intent accepted_risk start
      protection_required identifying

is_live_mode : parse_mode (setting live_config "BFA_MODE" "") ≡ some live
unfolding config_ops text_ops ◌==◌
is_live_mode = refl

abbrev entry : EntrySubmission fixed
entry = record { intent = intent; client_order_id = "entry"; response = Dict.end }

leverage_fallback_sequence-Descends_example :
    let tried = leverage_fallback_sequence (pos (11 + 1)) in
    ((rest : List ℤ) × (tried ≡ pos (11 + 1) ∷ rest))
    × Descends (pos (11 + 1 + 1)) tried
    × All (λ m. pos 1 ≤ℤ m) tried
leverage_fallback_sequence-Descends_example = leverage_fallback_sequence-Descends 11

-- For a leverage of twelve.
leverages_for_twelve :
    leverage_fallback_sequence (pos 12)
    ≡ pos 12 ∷ pos 10 ∷ pos 8 ∷ pos 5 ∷ pos 3 ∷ pos 2 ∷ pos 1 ∷ []
unfolding leverage_fallback_sequence
leverages_for_twelve = refl

resolve_limit_entry-Closed_example :
    ClosedAfter live_config intent "bfa-1"
      (wait_for_entry live_config intent 3 "bfa-1" start)
      (resolve_limit_entry live_config intent 3 "bfa-1" start)
resolve_limit_entry-Closed_example = resolve_limit_entry-Closed live_config intent "bfa-1" 3 start
