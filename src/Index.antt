-- ===== src/Index.antt =====
-- index/index.go: the typed index over a key-value backend, and the in-memory backend.
pub mod Table
pub mod Tx
pub mod Memory
pub mod Keys
pub mod Json
pub mod Commit
pub mod Refs
pub mod Reap
pub mod Scan
pub mod Records
pub mod Segments
pub mod Tests
