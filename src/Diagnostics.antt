-- ===== src/Diagnostics.antt =====
-- The diagnostics of the validator: their settings (app/config/validator), the catalog of providers and
-- the runner (app/domain/diagnostic).
pub mod Config
pub mod Catalog
pub mod Runner
pub mod Stages
pub mod Failures
pub mod Required
pub mod Outcome
