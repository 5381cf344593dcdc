-- ===== src/ChatCore/Crypto.antt =====
-- crates/chat-core/src/crypto.rs: the encrypted session of two peers.
pub mod Primitives
pub mod Info
pub mod Session
pub mod Cipher
pub mod Rekey
pub mod Runs
pub mod OutboundNonces
pub mod Marks
pub mod Replay
pub mod Delivery
pub mod Linked
pub mod Phases
pub mod Handshake
pub mod Agreement
pub mod Tampering
pub mod InFlight
pub mod Crossing
pub mod Separation
pub mod Bounds
pub mod Refusal
pub mod Overflow
