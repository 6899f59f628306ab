-- ===== src/Strategies/Pairs.antt =====
-- strategies/cross_exchange.py and strategies/latency_arb.py: buy at one venue's ask, sell at
-- another's bid. Both walk the same grid of venue pairs and build the same opportunity; they differ in
-- the name and in the test of a pair. Texts in `detail` are left out.
mod Defs
pub mod Spreads
pub use Defs.*
unfoldable pub use Defs.{
  gross_pct, net_pct, cross_exchange_gate, latency_gate, candidate, against, grid, scan_symbol,
  scan_symbols, scan,
}
