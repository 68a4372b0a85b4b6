-- ===== src/Tests.antt =====
-- Runs of the model on concrete inputs, and each theorem at one of them.
pub mod Filter
pub mod Metric
pub mod Dcgm
pub mod Collector
pub mod DiskStore
pub mod ErrorRate
pub mod Shipper
pub mod Requests
pub mod Parallel
pub mod Runnable
pub mod Pusher
pub mod Tls
pub mod Lock
pub mod Webhook
pub mod Admission
pub mod Backfiller
pub mod Diagnostics
pub mod Config
