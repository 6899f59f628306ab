-- ===== src/Core/Market.antt =====
-- core/market_state.py: the snapshot that strategies scan, and its view of one symbol across venues.
-- The six parallel arrays of `SymbolMatrix` are one list of rows.
mod Defs
pub mod Rows
pub use Defs.*
unfoldable pub use Defs.{usable, rows_of, matrix_for_symbol}
