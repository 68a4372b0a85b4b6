-- ===== src/Metric.antt =====
-- app/types/metric.go: the internal metric, and the labels that are kept in fields of their own.
pub mod Defs
pub mod Labels
pub mod Parquet
pub mod RoundTrip
