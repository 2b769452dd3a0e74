-- ===== src/Compiler.antt =====
-- src/compiler/compiler.rs: the types that the parsers of compiler command lines and the cache
-- share.
mod Types
pub mod CachedCompile
pub mod Process
pub mod Objects
pub mod Kept
pub mod Transparent
pub mod Hit
mod Tests
unfoldable pub use Types.*
