-- ===== src/Shipper.antt =====
-- app/domain/shipper: the cleanup of uploaded files, their chunks, and the upload of new files.
pub mod Disk
pub mod Chunk
pub mod Names
pub mod Upload
pub mod Request
pub mod Identity
