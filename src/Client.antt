-- ===== src/Client.antt =====
-- crates/futu/src/client: the connection, the handshake, the heartbeat and the message dispatch.
pub mod Dispatcher
pub mod Connection
pub mod Keepalive
pub mod Init
pub mod Session
pub mod Interleave
