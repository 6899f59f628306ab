-- ===== src/Strategies/Spot.antt =====
-- The detectors on spot books besides the venue pairs: passive fills, quotes on one venue, wrapped
-- assets and stablecoins.
pub mod MakerRebate
pub mod CrossQuote
pub mod Groups
pub mod Swaps
pub mod WrappedAsset
pub mod StablecoinDepeg
pub mod Pegs
pub mod KillSwitch
