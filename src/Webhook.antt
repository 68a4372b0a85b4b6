-- ===== src/Webhook.antt =====
-- The admission webhook: what it keeps of a Kubernetes object, and how the record is stored.
pub mod Format
pub mod Repository
pub mod Storage
pub mod History
pub mod Latest
pub mod Review
pub mod Hook
pub mod Settings
pub mod Handlers
pub mod Controller
pub mod Admission
pub mod Answers
pub mod Factory
pub mod Recording
pub mod Serve
pub mod Replies
pub mod Backfiller
