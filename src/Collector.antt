-- ===== src/Collector.antt =====
-- app/domain/metric_filter.go and app/domain/metric_collector.go: decoding, transforming,
-- classifying and storing the metrics of a remote write request.
pub mod MetricFilter
pub mod ContentType
pub mod Decode
pub mod Put
