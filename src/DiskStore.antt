-- ===== src/DiskStore.antt =====
-- app/storage/disk/disk.go: the store that writes metrics to an active file and renames it.
pub mod Defs
pub mod Invariant
pub mod Rows
pub mod Interface
