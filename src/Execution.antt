-- ===== src/Execution.antt =====
-- execution/: inventory, router, reconciler and executor.
pub mod Inventory
pub mod Router
pub mod Reconciler
pub mod Executor
