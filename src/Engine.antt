-- ===== src/Engine.antt =====
-- main.py: how the parts work together.
pub mod Tick
pub mod Screen
pub mod Filters
