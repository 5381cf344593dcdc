-- ===== src/ChatServer.antt =====
-- crates/chat-server: the relay.
pub mod Router
pub mod Ws
