-- ===== src/Risk.antt =====
-- src/bfa/execution/risk.py: from an AI decision to an order intent, and the risk gates on it.
mod Reasons
mod Intent
mod Exposure
mod Evaluate
pub mod Clear
pub mod Gates
unfoldable pub use Reasons.*
unfoldable pub use Intent.*
unfoldable pub use Exposure.*
unfoldable pub use Evaluate.*
