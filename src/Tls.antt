-- ===== src/Tls.antt =====
-- The reload of TLS certificates: app/domain/monitor/tls_monitor.go.
pub mod Defs
pub mod Roots
pub mod Fresh
pub mod Laws
pub mod Stuck
pub mod Verify
pub mod Files
