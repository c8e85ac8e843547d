-- ===== src/Filters.antt =====
-- src/bfa/execution/filters.py: the exchange's filters on order sizes and prices.
mod Defs
pub mod Rounding
pub mod Gates
unfoldable pub use Defs.*
