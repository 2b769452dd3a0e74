-- ===== src/Server.antt =====
-- src/server.rs: the server, its statistics, its requests, its wire codec and its end.
pub mod Duration
pub mod Stats
pub mod Service
pub mod Task
pub mod World
mod Counted
pub mod Balanced
pub mod Ledger
pub mod Known
pub mod Compilers
pub mod Unsupported
pub mod Average
pub mod Shutdown
pub mod Active
pub mod Handles
pub mod Codec
pub mod Cuts
pub mod Frames
pub mod Transport
mod FrameTests
mod Tests
