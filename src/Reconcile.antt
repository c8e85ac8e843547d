-- ===== src/Reconcile.antt =====
-- src/bfa/execution/reconcile.py: the local intents against the open orders and the positions of the
-- exchange.
mod Defs
pub mod Partition
unfoldable pub use Defs.*
