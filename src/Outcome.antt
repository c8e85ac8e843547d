-- ===== src/Outcome.antt =====
-- src/bfa/execution/outcome.py: the persistence of the outcome of a trade.
mod Defs
pub mod Repeated
pub mod Returned
unfoldable pub use Defs.*
