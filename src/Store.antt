-- ===== src/Store.antt =====
-- store/store.go, the parts that are modelled.
pub mod Quota
pub mod Listing
pub mod Reader
pub mod Recovery
pub mod Handle
pub mod Parts
pub mod Put
pub mod Namespaces
pub mod Rebuild
pub mod Stats
pub mod Compact
mod Tests
