-- ===== src/Metrics.antt =====
-- internal/metrics: events and their aggregation.
pub mod Event
pub mod Aggregate
