-- ===== src/Parallel.antt =====
-- app/utils/parallel/parallel.go: tasks on a bounded number of workers, with a channel for errors.
pub mod Defs
pub mod Progress
