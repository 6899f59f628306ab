-- ===== src/Strategies.antt =====
-- strategies/: the detectors.
pub mod Shared
pub mod Gather
pub mod Pairs
pub mod Spot
pub mod Futures
pub mod Pools
pub mod Cycles
