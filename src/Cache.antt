-- ===== src/Cache.antt =====
-- src/cache/: the entries of the cache, their keys, and the interface of the stores.
mod Entry
mod Key
mod Store
pub mod Disk
pub mod Persistence
pub mod Collisions
pub mod Size
mod SizeTests
pub mod FakeZip
mod DiskTests
mod Tests
unfoldable pub use Entry.*
unfoldable pub use Key.*
unfoldable pub use Store.*
