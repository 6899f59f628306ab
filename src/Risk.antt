-- ===== src/Risk.antt =====
-- risk/: the limits and the manager that every opportunity passes.
pub mod Limits
pub mod Manager
