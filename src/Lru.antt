-- ===== src/Lru.antt =====
-- The third-party crate `lru-cache` (the fork that lru-disk-cache/Cargo.toml names) as an interface:
-- its operations are parameters, and `LruLaws` states their documented behaviour over `iter`, which
-- lists the entries from the least to the most recently used.
mod Assoc
mod Interface
pub mod Listed
unfoldable pub use Assoc.*
pub use Interface.*
