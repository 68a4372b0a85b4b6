-- ===== src/Lock.antt =====
-- The lock file: app/utils/lock/filelock.go.
pub mod Defs
pub mod Exclusion
pub mod Race
