-- ===== src/Decision.antt =====
-- src/bfa/ai/decision.py: validation of the decision that an AI provider returns.
mod Parse
mod Validate
pub mod Sound
pub mod Positive
pub mod NotANumber
unfoldable pub use Parse.*
unfoldable pub use Validate.*
