-- ===== src/Msvc.antt =====
-- src/compiler/msvc.rs: the parser of MSVC's command lines.
mod Defs
pub mod Groups
pub mod Accepted
pub mod Commands
pub mod Prefix
pub mod Preprocess
pub mod Deps
pub mod Rules
pub mod Order
pub mod Included
pub mod Depfile
mod DepfileTests
mod Tests
unfoldable pub use Defs.*
