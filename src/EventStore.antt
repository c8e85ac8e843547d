-- ===== src/EventStore.antt =====
-- src/bfa/event_store/store.py: the event store over its SQLite connection.
mod Defs
mod Retry
mod Query
pub mod Atomic
pub mod Linked
pub mod Order
pub mod Found
pub mod Retried
unfoldable pub use Defs.*
unfoldable pub use Retry.*
unfoldable pub use Query.*
