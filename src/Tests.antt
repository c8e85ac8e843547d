-- ===== src/Tests.antt =====
-- The theorems at concrete data, and runs of the definitions.
pub mod Data
mod Filters
mod Decision
mod Risk
mod EventStore
mod Watchdog
mod KillSwitch
mod Reconcile
mod Executor
mod Sizing
mod Outcome
