-- ===== src/ChatCore/Crypto/Cipher.antt =====
-- `encrypt` and `decrypt` of a session, and what they are made of.
use e2e_chat_rs.Prelude.{
  get_or, ℕ, ◌+◌, Bool, not, ◌&&◌, ◌||◌, none, some, ◌++◌, ltb, ◌==◌, ◌!=◌, ℕ_eq, if◌then◌else◌,
  Result, ok, err, ok_or, pure, lift, gets, reads, ◌>>=◌, ◌>>◌, text,
}
use e2e_chat_rs.Prelude.Words.{u64_mod, add_u32, to_be_bytes}
use e2e_chat_rs.Prelude.Maps
use e2e_chat_rs.ChatCore.{protocol_version}
use e2e_chat_rs.ChatCore.Types.{ClientId, ClientId_eq, MessageId, NonceBytes}
use e2e_chat_rs.ChatCore.Nonce.{NonceTracker, mark_seen}
use e2e_chat_rs.ChatCore.Nonce
use e2e_chat_rs.ChatCore.Event.{EncryptedEnvelope}
use e2e_chat_rs.ChatCore.Crypto.Primitives.{Bytes, Primitives}
use e2e_chat_rs.ChatCore.Crypto.Session.{
  CryptoError, CryptoSession, SessionMethod, authentication_failed, unexpected_peer, unknown_epoch,
  encryption_failed, key_derivation_failed, invalid_key_length,
  associated_data_serialization_failed, nonce_exhausted, duplicate_nonce,
}

abbrev pub session_key_salt : Bytes
session_key_salt = text "e2e-chat-rs/session-key/v1"

-- `next_nonce`: the counter goes up first, so it starts at 1 and stops at the largest `u64`.
unfoldable pub next_nonce : SessionMethod NonceBytes
next_nonce s =
    let next = s.next_outbound_nonce + 1 in
    if ltb next u64_mod
    then (
      ok (record { bytes = s.outbound_nonce_prefix ++ to_be_bytes 8 next }),
      record s { next_outbound_nonce = next },
    )
    else (err nonce_exhausted, s)

-- The tracker of the envelope's epoch, made on first use, takes the nonce.
unfoldable pub mark_inbound : ℕ → NonceBytes → SessionMethod (Unit {0})
mark_inbound epoch nonce s =
    let tracker = get_or (Maps.get s.inbound_nonces epoch) Nonce.default in
    let marked = mark_seen tracker nonce in
    let after : CryptoSession = record s {
      inbound_nonces = Maps.insert s.inbound_nonces epoch marked.1;
    } in
    elim marked.0 [ ok _ ↦ (ok tt, after) | err _ ↦ (err duplicate_nonce, after) ]

-- Only the current epoch and the one before it are accepted.
unfoldable pub accepts_epoch : CryptoSession → ℕ → Bool
accepts_epoch s epoch = epoch == s.epoch || (ltb 0 s.epoch && add_u32 epoch 1 == s.epoch)

module _ (prim : Primitives) where
  -- The cipher of an epoch, which is its key.
  unfoldable pub cipher_for : CryptoSession → ℕ → Result Bytes CryptoError
  cipher_for s epoch =
      elim (prim.hkdf session_key_salt s.master_secret (s.session_info ++ to_be_bytes 4 epoch) 32) [
        | none ↦ err key_derivation_failed
        | some key ↦ if prim.aead_accepts_key key then ok key else err invalid_key_length
      ]

  unfoldable pub associated_data_for :
      ClientId → ClientId → MessageId → ℕ → Result Bytes CryptoError
  associated_data_for sender recipient message_id epoch =
      ok_or
        (prim.associated_data_to_vec (record {
          version = protocol_version;
          sender = sender;
          recipient = recipient;
          message_id = message_id;
          epoch = epoch;
        }))
        associated_data_serialization_failed

  unfoldable pub encrypt : MessageId → Bytes → SessionMethod EncryptedEnvelope
  encrypt message_id plaintext = do
    cipher ← reads (λ s. cipher_for s s.epoch)
    nonce ← next_nonce
    aad ← reads (λ s. associated_data_for s.local_id s.peer_id message_id s.epoch)
    ciphertext ← lift (ok_or (prim.aead_encrypt cipher nonce.bytes plaintext aad) encryption_failed)
    gets (λ s. record {
      sender = s.local_id;
      recipient = s.peer_id;
      message_id = message_id;
      epoch = s.epoch;
      nonce = nonce;
      ciphertext = record { bytes = ciphertext };
    })

  unfoldable pub open_envelope : EncryptedEnvelope → CryptoSession → Result Bytes CryptoError
  open_envelope envelope s =
      if envelope.sender != s.peer_id || envelope.recipient != s.local_id
      then err unexpected_peer
      else if not (accepts_epoch s envelope.epoch)
      then err unknown_epoch
      else elim (cipher_for s envelope.epoch) [
        | err e ↦ err e
        | ok cipher ↦
            elim (associated_data_for envelope.sender envelope.recipient envelope.message_id
              envelope.epoch) [
                | err e ↦ err e
                | ok aad ↦
                    ok_or
                      (prim.aead_decrypt cipher envelope.nonce.bytes envelope.ciphertext.bytes aad)
                      authentication_failed
              ]
      ]

  -- The plaintext is returned only once its nonce has been marked.
  unfoldable pub decrypt : EncryptedEnvelope → SessionMethod Bytes
  decrypt envelope = do
    plaintext ← reads (open_envelope envelope)
    mark_inbound envelope.epoch envelope.nonce
    pure plaintext
