-- ===== src/KillSwitch.antt =====
-- src/bfa/ops/kill_switch.py: the clearance of the kill switch file once every open position has its
-- closing orders.
mod Defs
pub mod Clearance
pub mod Guarded
unfoldable pub use Defs.*
