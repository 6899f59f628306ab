-- ===== src/Config.antt =====
-- config/: the venue tables with their live overrides, and the tiered universe.
pub mod Venues
pub mod Universe
