-- ===== src/Execution/Executor.antt =====
-- execution/executor.py: `Executor`.
mod Defs
pub mod Capital
pub mod Trades
pub mod Untraded
pub mod Live
pub mod Account
pub use Defs.*
unfoldable pub use Defs.{
  reject, handle, handle_paper, handle_live, execute_leg, estimate_pnl_usd, with_size, log_paper,
  log_live,
}
