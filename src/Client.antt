-- ===== src/Client.antt =====
-- src/client.rs and src/commands.rs: the client, from the connection to the exit code.
pub mod Wire
pub mod Connection
pub mod Output
pub mod Compile
pub mod Session
pub mod Start
pub mod Stats
pub mod Columns
pub mod Printed
pub mod Reach
pub mod Report
pub mod Run
mod ColumnsTests
mod Tests
