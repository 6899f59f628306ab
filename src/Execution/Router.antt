-- ===== src/Execution/Router.antt =====
-- execution/router.py: `Router`.
mod Defs
pub mod Cells
pub mod Select
pub mod Settle
pub mod Pending
pub use Defs.*
unfoldable pub use Defs.{
  leg_asset, leg_amount, reserve_legs, release_all, select, select_loop, release_unfilled,
  settle_fill, settle_all, credit_legs,
}
