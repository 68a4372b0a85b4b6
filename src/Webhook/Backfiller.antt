-- ===== src/Webhook/Backfiller.antt =====
-- The walk over the objects of a cluster that are there before the webhook is.
pub mod Catalog
pub mod Await
pub mod Waiting
pub mod Fetch
pub mod Walk
pub mod Pages
pub mod Nodes
pub mod Visits
pub mod Posts
pub mod Reasons
