-- ===== src/Volume.antt =====
-- volume/volume.go: the segment files, their pages, the write-ahead log and the engine.
pub mod Flags
pub mod Header
pub mod Options
pub mod Segment
pub mod Files
pub mod Engine
pub mod Address
pub mod Write
pub mod Wal
pub mod Scan
pub mod Stats
pub mod Open
pub mod RoundTrip
pub mod Blob
mod Tests
