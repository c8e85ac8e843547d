-- ===== src/Executor.antt =====
-- src/bfa/execution/executor.py: the execution engine.
mod Client
mod Orders
mod Margin
mod Protect
mod Resolve
mod Reprice
mod Entry
mod Limit
mod Entered
mod Run
pub mod Protection
pub mod Attempts
pub mod Safety
pub mod Recovered
pub mod Guarded
pub mod Settled
pub mod Protected
pub mod Passive
pub mod Closed
pub mod Leverage
unfoldable pub use Client.*
unfoldable pub use Orders.*
unfoldable pub use Margin.*
unfoldable pub use Protect.*
unfoldable pub use Resolve.*
unfoldable pub use Reprice.*
unfoldable pub use Entry.*
unfoldable pub use Limit.*
unfoldable pub use Entered.*
unfoldable pub use Run.*
