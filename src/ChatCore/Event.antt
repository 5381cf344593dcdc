-- ===== src/ChatCore/Event.antt =====
-- crates/chat-core/src/event.rs: what travels on the wire, and inside an envelope.
pub mod Codes
use e2e_chat_rs.Prelude.{ℕ, List}
use e2e_chat_rs.ChatCore.Types.{
  ClientId, MessageId, NonceBytes, Ciphertext, PublicKeyBytes, RekeyId,
}

pub record EncryptedEnvelope : Type 0 where
  pub sender : ClientId
  pub recipient : ClientId
  pub message_id : MessageId
  pub epoch : ℕ  -- u32
  pub nonce : NonceBytes
  pub ciphertext : Ciphertext

pub data RelayErrorCode : Type 0 where
  sender_mismatch unknown_recipient unsupported_event : RelayErrorCode
  client_not_connected client_already_connected connect_denied : RelayErrorCode
  other : List ℕ → RelayErrorCode

pub data WireEvent : Type 0 where
  client_hello : (client_id : ClientId) (public_key : PublicKeyBytes) → WireEvent
  peer_key : (from to : ClientId) (public_key : PublicKeyBytes) → WireEvent
  encrypted_message : EncryptedEnvelope → WireEvent
  ack : (message_id : MessageId) → WireEvent
  error : (code : RelayErrorCode) (message : List ℕ) → WireEvent

pub data SessionPayload : Type 0 where
  chat : (words : List ℕ) → SessionPayload
  rekey_request : (rekey_id : RekeyId) (ephemeral_public_key : PublicKeyBytes) → SessionPayload
  rekey_response : (rekey_id : RekeyId) (ephemeral_public_key : PublicKeyBytes) → SessionPayload
