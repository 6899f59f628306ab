-- ===== src/Execution/Inventory.antt =====
-- execution/inventory.py: `InventoryManager`. A balance object is in the table under one key only, so
-- a change in place and the assignment that follows are one `set`.
mod Defs
pub mod Solvent
pub mod Totals
pub use Defs.*
unfoldable pub use Defs.{
  set_balance, get_balance, reserve, release, settle, credit, total_across_venues, imbalance_report,
  estimate_transfer, underfunded, richest,
}
