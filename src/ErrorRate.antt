-- ===== src/ErrorRate.antt =====
-- app/http/middleware/errorrate.go: the share of failed responses in a sliding window.
pub mod Defs
pub mod Window
pub mod Latch
