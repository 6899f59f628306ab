-- ===== src/Tests.antt =====
-- Runs of the model at concrete inputs, on whole numbers.
pub mod Data
mod Books
mod Risk
mod Funds
mod Trading
mod Detect
mod Search
mod Universe
mod Scans
