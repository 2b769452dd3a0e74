-- ===== src/Gcc.antt =====
-- src/compiler/gcc.rs: the parser of gcc's and clang's command lines, and the commands it runs.
mod Expand
mod Defs
pub mod Groups
pub mod Collect
pub mod Flat
pub mod Commands
pub mod Accepted
pub mod Compile
mod Tests
unfoldable pub use Expand.*
unfoldable pub use Defs.*
