-- ===== src/Watchdog.antt =====
-- src/bfa/ops/pending_limit_watchdog.py: the watchdog of limit entries that an earlier cycle left
-- pending.
mod Tables
mod Backfill
mod Check
mod Report
pub mod Observe
pub mod Guard
pub mod Listed
mod Resolved
pub mod Progress
pub mod Loaded
pub mod Repriced
unfoldable pub use Tables.*
unfoldable pub use Backfill.*
unfoldable pub use Check.*
unfoldable pub use Report.*
