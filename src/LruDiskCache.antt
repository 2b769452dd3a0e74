-- ===== src/LruDiskCache.antt =====
-- lru-disk-cache/src/lib.rs: a cache of files on disk that is bounded by their total size.
mod Defs
mod Scan
pub mod Facts
pub mod Files
pub mod Evict
pub mod Insert
pub mod Refine
pub mod Read
pub mod Stale
pub mod Errors
mod Tests
unfoldable pub use Defs.*
unfoldable pub use Scan.*
