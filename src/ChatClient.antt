-- ===== src/ChatClient.antt =====
-- crates/chat-client: the session of one client, and the command line around it.
pub mod Texts
pub mod Session
pub mod Main
