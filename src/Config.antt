-- ===== src/Config.antt =====
-- Settings: what is detected of the cloud, and the validation of the settings of the collector and the
-- shipper.
pub mod Detect
pub mod Gator
pub mod Validated
