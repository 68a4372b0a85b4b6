-- ===== src/Pusher.antt =====
-- Records of Kubernetes objects and how they are sent: app/domain/pusher and app/storage/streaming.
pub mod Record
pub mod Sender
pub mod Flush
pub mod Batches
pub mod Delivery
pub mod Stream
pub mod Backfill
