-- ===== src/Risk/Manager.antt =====
-- risk/manager.py: the methods of `RiskManager`. The current day is an argument, a day's ordinal.
mod Defs
mod Sizing
pub mod Gate
pub mod Deployed
pub mod Counters
pub mod Sized
pub mod Recheck
pub mod Unsized
pub use Defs.*
pub use Sizing.*
unfoldable pub use Defs.{
  roll_day_if_needed, can_trade, commit, release, record_result, trigger_emergency_stop,
  clear_emergency_stop, release_uncommitted, record_counters,
}
unfoldable pub use Sizing.{
  size_with_depth_check, clears_venue_minimums, reverify_profitability, walk_legs, buy_leg,
}
