-- ===== src/ChatCore/Crypto/Delivery.antt =====
-- `encrypt` at one session of crypto.rs and `decrypt` at another that has the same keys.
use e2e_chat_rs.Prelude.{ℕ, ◌+◌, ◌≤◌, ◌<◌, ◌≡◌, refl, ok, arith, length, ◌++◌}
use e2e_chat_rs.Prelude.Words.{u64_mod, to_be_bytes}
use e2e_chat_rs.ChatCore.{protocol_version}
use e2e_chat_rs.ChatCore.Types.{ClientId, MessageId, NonceBytes}
use e2e_chat_rs.ChatCore.Event.{EncryptedEnvelope}
use e2e_chat_rs.ChatCore.Crypto.Primitives.{Bytes, Primitives, NeverFails, AeadRoundTrips}
use e2e_chat_rs.ChatCore.Crypto.Session.{CryptoSession}
use e2e_chat_rs.ChatCore.Crypto.Cipher.{
  session_key_salt, cipher_for, associated_data_for, next_nonce, encrypt, open_envelope,
  accepts_epoch,
}

-- The two ends of a conversation, with the same keys.
pub record InSync (a b : CryptoSession) : Type 0 where
  pub master : b.master_secret ≡ a.master_secret
  pub info : b.session_info ≡ a.session_info
  pub epoch : b.epoch ≡ a.epoch
  pub to_peer : b.local_id ≡ a.peer_id
  pub from_peer : b.peer_id ≡ a.local_id

-- The sender's state after one more envelope.
abbrev pub sent_one : CryptoSession → CryptoSession
sent_one a = record a { next_outbound_nonce = a.next_outbound_nonce + 1 }

-- An envelope of `a` that `b` opens to `plaintext`.
pub record Conveys (prim : Primitives) (a b : CryptoSession) (plaintext : Bytes)
    (envelope : EncryptedEnvelope) : Type 0 where
  pub epoch : envelope.epoch ≡ a.epoch
  pub nonce :
      envelope.nonce
      ≡ record { bytes = a.outbound_nonce_prefix ++ to_be_bytes 8 (a.next_outbound_nonce + 1) }
  pub opens : open_envelope prim envelope b ≡ ok plaintext

module _ (prim : Primitives) {max : ℕ} (law : NeverFails prim max) where
  pub cipher_for_ok :
      (s : CryptoSession) (epoch : ℕ) → (key : Bytes) × (cipher_for prim s epoch ≡ ok key)
  unfolding cipher_for
  cipher_for_ok s epoch =
      let key =
        law.expands session_key_salt s.master_secret (s.session_info ++ to_be_bytes 4 epoch) in
      (key.0, ground (arith, key))

  pub associated_data_for_ok :
      (sender recipient : ClientId) (id : MessageId) (epoch : ℕ)
      → (aad : Bytes) × (associated_data_for prim sender recipient id epoch ≡ ok aad)
  unfolding associated_data_for
  associated_data_for_ok sender recipient id epoch =
      let bytes = law.associated_data (record {
        version = protocol_version;
        sender = sender;
        recipient = recipient;
        message_id = id;
        epoch = epoch;
      }) in
      (bytes.0, ground (arith, bytes))

  module _ (round_trips : AeadRoundTrips prim) where
    pub encrypt-Conveys :
        (a b : CryptoSession) (id : MessageId) (plaintext : Bytes)
        → InSync a b
        → length plaintext ≤ max
        → a.next_outbound_nonce + 1 < u64_mod
        → (envelope : EncryptedEnvelope) × (encrypt prim id plaintext a ≡ (ok envelope, sent_one a))
          × Conveys prim a b plaintext envelope
    unfolding encrypt next_nonce open_envelope accepts_epoch
    encrypt-Conveys a b id plaintext sync short room =
        let (key, keyed) = cipher_for_ok a a.epoch in
        let (key', keyed') = cipher_for_ok b a.epoch in
        let same : cipher_for prim b a.epoch ≡ cipher_for prim a a.epoch =
          unfold cipher_for in rw (sync.master, sync.info) in
        let (aad, bound) = associated_data_for_ok a.local_id a.peer_id id a.epoch in
        let nonce : NonceBytes = record {
          bytes = a.outbound_nonce_prefix ++ to_be_bytes 8 (a.next_outbound_nonce + 1);
        } in
        let (ciphertext, sealed) = law.encrypts key nonce.bytes plaintext aad short in
        let opened = round_trips key nonce.bytes plaintext aad ciphertext sealed in
        (
          record {
            sender = a.local_id;
            recipient = a.peer_id;
            message_id = id;
            epoch = a.epoch;
            nonce = nonce;
            ciphertext = record { bytes = ciphertext };
          },
          ground arith,
          record { epoch = refl; nonce = refl; opens = ground arith },
        )
