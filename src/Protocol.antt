-- ===== src/Protocol.antt =====
-- src/protocol.rs: the messages between client and server, with the accessors that both use.
pub mod Request
pub mod Statistic
pub mod Response
