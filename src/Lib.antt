-- ===== src/Lib.antt =====
-- A model of the live execution path of the Binance futures agent: from the answer of an AI provider
-- to the orders on the exchange. The program is Python, under src/bfa; the paths below are those of
-- the repository.
--
-- The parts and how they interact. A provider's answer is a payload, which `validate_decision_payload`
-- (src/bfa/ai/decision.py) turns into a decision with its errors and warnings. The engine
-- (`ExecutionEngine.run` in src/bfa/execution/executor.py) makes an order intent of an accepted
-- decision (`intent_from_ai_decision` in src/bfa/execution/risk.py), rounded to the grid of the
-- exchange (`SymbolExecutionFilters.apply` in src/bfa/execution/filters.py), asks the risk gates
-- (`evaluate_risk`), and then, by its mode, stops, sends a test order, or goes live: it checks the
-- balance, sets the margin type and the leverage, sends the entry order, waits for a limit entry to
-- fill, and places a stop order and a target order, with a recovery, a fallback and an emergency
-- close when the exchange refuses them. The runs are kept in the event store
-- (src/bfa/event_store/store.py). Beside the engine, operators run the watchdog of limit entries that
-- were left pending (src/bfa/ops/pending_limit_watchdog.py), which guards those that filled, the
-- clearance of the kill switch (src/bfa/ops/kill_switch.py), which the risk gates look at,
-- and the reconciliation of the intents with the exchange (src/bfa/execution/reconcile.py).
--
-- Files.
--   Base and its children: the names that are passed on, Boolean tests, lists, Python's integers
--     (Base.Int), text (Base.Text), JSON values (Base.Json), floats as an interface (Base.Float).
--     Base.Fixed is a concrete float of eight decimal places with a NaN, for the tests, and
--     Base.Ordered shows that it has the order of doubles. Base.Sort is a stable sort by insertion,
--     and Base.Texts the order of texts.
--   Config: src/bfa/config.py, `RuntimeMode` and `AppConfig.get`, with the readers of settings that
--     the other files keep.
--   Models: src/bfa/execution/models.py and the decision types of src/bfa/ai/schema.py.
--     Models.Payload has the dict of an intent and its reader, Models.RoundTrip their theorem.
--   Decimal: Python's `Decimal` as mantissas at a fixed number of places.
--   Filters: src/bfa/execution/filters.py. Definitions in Defs, theorems in Rounding and Gates.
--   Decision: src/bfa/ai/decision.py. Parse has the readers and the context, Validate the checks;
--     theorems in Sound, Positive and NotANumber.
--   Risk: src/bfa/execution/risk.py. Reasons and Intent build the intent, Exposure and Evaluate are
--     the gates; theorems in Clear and Gates.
--   Executor: src/bfa/execution/executor.py. Client is the interface to the exchange and the action
--     monad; Orders has the small helpers; Margin, Reprice, Entry, Limit, Protect and Resolve the
--     methods that a run calls; Entered is a run from the accepted entry on, with `_finish`, and Run
--     is `run`. Theorems in Attempts, Passive, Closed, Leverage, Protection, Recovered, Guarded, Settled,
--     Protected and Safety.
--   EventStore: src/bfa/event_store/. Defs has the tables of a connection, with what is committed and
--     what an open transaction sees, and one attempt of an insert; Retry the retries, Query
--     `events_between`. Theorems in Atomic, Retried, Linked, Found and Order.
--   Watchdog: src/bfa/ops/pending_limit_watchdog.py over the tables of src/bfa/execution/store.py.
--     Tables has the rows, what they resolve and what is pending; Backfill the closing orders, Check
--     one pending order, Report the gates and the loop. Theorems in Observe, Guard, Listed, Resolved,
--     Progress, Loaded and Repriced.
--   KillSwitch: src/bfa/ops/kill_switch.py. Definitions in Defs, theorems in Clearance and Guarded.
--   Reconcile: src/bfa/execution/reconcile.py. Definitions in Defs, theorems in Partition.
--   Sizing: src/bfa/execution/sizing.py. Definitions in Defs, theorems in Caps and Governed.
--   Outcome: `persist_trade_outcome` of src/bfa/execution/outcome.py over the event store. Definitions
--     in Defs, theorems in Repeated and Returned.
--   Tests: runs, and the theorems at concrete data.
--
-- How the code is modelled. A method that calls the exchange is an action: a function from a world
-- to an outcome and a world. The world keeps the state of the exchange, the log of the calls with
-- whether each was answered, and what was persisted. The exchange is a parameter without a law: it
-- may answer anything and fail at any call. `BinanceSignedError` is the `err` outcome, and `attempt`
-- is its `except` clause. A list of errors that the source appends to is returned instead.
--
-- Floats are a parameter, with the operations that the source uses; the laws of the order of IEEE
-- doubles are the record `IsOrdered`, and only the theorems that name it rely on them. A decimal is
-- exact: the 28 digits of the context are taken to be enough. Text is ASCII where case matters.
-- Whether a file exists is a parameter, a function of its path.
--
-- Bounds. The loops over attempts and over leverages recurse on what is left to try, which the
-- source fixes before it starts. The wait for a limit entry recurses on `polls`, how many more
-- queries the clock allows before the deadline: the clock is outside the program, and the loop of the
-- source ends by it or by a terminal status, as the recursion does. Digits of a number are shown on
-- fuel, one more than the number, and a number has no more digits than that.
--
-- The insert into the event store is tried at most four times, as the table of delays in the source
-- has three entries; the loop of the watchdog recurses on the list of the pending orders.
--
-- Exceptions. `err` is `BinanceSignedError` alone, and nothing as the result of a run is a
-- `ValueError` of its own code: of the mode, of the intent, or of the cancellation of an order without
-- an identifier. Other exceptions of the client, such as `TimeoutError`, and of the event store, when
-- a run or the watchdog writes to it, are left out, so that the theorems say nothing of a run that
-- these end. An infinite float is taken as what cannot be read where the source makes an integer
-- of it, which raises `OverflowError`, and a NaN is not compared as a decimal, which raises
-- `InvalidOperation`. The sum of floats is plain addition in order.
--
-- Not modelled: the latency telemetry, the documents of replies that a run or the watchdog stores
-- besides what is read again, the text of a provider's answer before it is a JSON value, the HTTP
-- client, the schema of the database, what SQLite refuses while the watchdog writes, and the
-- components of the multiplier of the governor. The other parts of the program are left out:
-- strategy, market and narrative collection, backtest, the command line and the agent loop, the
-- position sentinel and adjustment, the summary of fills and the outcome ledger, the clearance of
-- exposures, and the reports of operators.
pub mod Base
pub mod Config
pub mod Models
pub mod Decimal
pub mod Filters
pub mod Decision
pub mod Risk
pub mod Executor
pub mod EventStore
pub mod Watchdog
pub mod KillSwitch
pub mod Reconcile
pub mod Sizing
pub mod Outcome
pub mod Tests
