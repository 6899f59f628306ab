-- ===== src/Strategies/Futures.antt =====
-- The detectors on perpetuals and dated futures.
pub mod PerpPerp
pub mod FundingRate
pub mod BasisCarry
pub mod CalendarSpread
