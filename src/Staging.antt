-- ===== src/Staging.antt =====
-- staging/staging.go: resumable uploads.
mod Tests
pub mod Ranges
pub mod Bitmap
pub mod Blocks
pub mod Session
pub mod Write
pub mod Manager
pub mod Transfer
