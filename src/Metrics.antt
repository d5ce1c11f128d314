-- ===== src/Metrics.antt =====
-- internal/metrics: latency histograms and the per-deployment counters.
pub mod Histogram
pub mod Collector
