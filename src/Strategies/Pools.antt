-- ===== src/Strategies/Pools.antt =====
-- The detectors on pools of automated market makers.
pub mod Amm
pub mod DexDex
pub mod CexDex
