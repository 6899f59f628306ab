-- ===== src/Analytics.antt =====
-- analytics/: the counters of the metrics registry.
pub mod Metrics
pub mod Recorder
