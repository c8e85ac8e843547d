-- ===== src/Sizing.antt =====
-- src/bfa/execution/sizing.py: the size of a position, and the governor that adapts it.
mod Defs
pub mod Caps
pub mod Governed
unfoldable pub use Defs.*
