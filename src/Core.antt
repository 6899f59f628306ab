-- ===== src/Core.antt =====
-- core/: the typed records, order books and their store, market snapshots and the currency graph.
pub mod Types
pub mod Route
pub mod Book
pub mod Graph
pub mod Market
