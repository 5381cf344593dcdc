-- ===== src/ChatCore.antt =====
-- crates/chat-core: protocol data, nonce tracking and the encrypted session.
pub mod Types
pub mod Nonce
pub mod Event
pub mod Service
pub mod Crypto
use e2e_chat_rs.Prelude.{ℕ}

-- `PROTOCOL_VERSION`
abbrev pub protocol_version : ℕ
protocol_version = 1
