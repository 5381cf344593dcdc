-- ===== src/ChatCore/Crypto/Runs.antt =====
-- Histories of a session: any sequence of its public operations, failing or not.
use e2e_chat_rs.Prelude.Words.{u32_mod}
use e2e_chat_rs.Prelude.{ℕ, List, [], ◌∷◌, ◌++◌, Result, ok, err, ◌<◌}
use e2e_chat_rs.ChatCore.Types.{MessageId, NonceBytes, RekeyId}
use e2e_chat_rs.ChatCore.Event.{EncryptedEnvelope, SessionPayload}
use e2e_chat_rs.ChatCore.Crypto.Primitives.{Bytes, Primitives}
use e2e_chat_rs.ChatCore.Crypto.Session.{CryptoSession, CryptoError}
use e2e_chat_rs.ChatCore.Crypto.Cipher.{encrypt, decrypt}
use e2e_chat_rs.ChatCore.Crypto.Rekey.{
  start_rekey, handle_session_payload, commit_staged_rekey, encrypt_payload, decrypt_payload,
}

-- A call, with the values that it draws at random.
pub data Call : Type 0 where
  encrypts : (message_id : MessageId) (plaintext : Bytes) → Call
  encrypts_payload : (message_id : MessageId) (payload : SessionPayload) → Call
  decrypts : (envelope : EncryptedEnvelope) → Call
  decrypts_payload : (envelope : EncryptedEnvelope) → Call
  starts_rekey : (rekey_id : RekeyId) (ephemeral_secret : Bytes) → Call
  handles : (payload : SessionPayload) (ephemeral_secret : Bytes) → Call
  commits : Call

-- The nonce that an encryption put into its envelope.
abbrev pub sent_by : Result EncryptedEnvelope CryptoError → List NonceBytes
sent_by (ok envelope) = envelope.nonce ∷ []
sent_by (err e) = []

-- The epoch and the nonce of an envelope that was decrypted.
abbrev pub accepted_by : EncryptedEnvelope → Result Bytes CryptoError → List (ℕ × NonceBytes)
accepted_by envelope (ok plaintext) = (envelope.epoch, envelope.nonce) ∷ []
accepted_by envelope (err e) = []

module _ (prim : Primitives) where
  unfoldable pub after : Call → CryptoSession → CryptoSession
  after (encrypts message_id plaintext) s = (encrypt prim message_id plaintext s).1
  after (encrypts_payload message_id payload) s = (encrypt_payload prim message_id payload s).1
  after (decrypts envelope) s = (decrypt prim envelope s).1
  after (decrypts_payload envelope) s = (decrypt_payload prim envelope s).1
  after (starts_rekey rekey_id secret) s = (start_rekey prim rekey_id secret s).1
  after (handles payload secret) s = (handle_session_payload prim payload secret s).1
  after commits s = (commit_staged_rekey s).1

  unfoldable pub sent : Call → CryptoSession → List NonceBytes
  sent (encrypts message_id plaintext) s = sent_by (encrypt prim message_id plaintext s).0
  sent (encrypts_payload message_id payload) s =
      sent_by (encrypt_payload prim message_id payload s).0
  sent _ s = []

  -- A payload that does not parse was decrypted all the same.
  unfoldable pub accepted : Call → CryptoSession → List (ℕ × NonceBytes)
  accepted (decrypts envelope) s = accepted_by envelope (decrypt prim envelope s).0
  accepted (decrypts_payload envelope) s = accepted_by envelope (decrypt prim envelope s).0
  accepted _ s = []

  unfoldable pub after_all : List Call → CryptoSession → CryptoSession
  after_all [] s = s
  after_all (c ∷ cs) s = after_all cs (after c s)

  unfoldable pub all_sent : List Call → CryptoSession → List NonceBytes
  all_sent [] s = []
  all_sent (c ∷ cs) s = sent c s ++ all_sent cs (after c s)

  unfoldable pub all_accepted : List Call → CryptoSession → List (ℕ × NonceBytes)
  all_accepted [] s = []
  all_accepted (c ∷ cs) s = accepted c s ++ all_accepted cs (after c s)

-- The epoch of an envelope is a `u32`.
abbrev pub IsTyped : Call → Type 0
IsTyped (decrypts envelope) = envelope.epoch < u32_mod
IsTyped (decrypts_payload envelope) = envelope.epoch < u32_mod
IsTyped _ = Unit
