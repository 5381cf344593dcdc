-- ===== src/ChatCore/Crypto/Rekey.antt =====
-- The rekey handshake of crypto.rs, and the payloads that carry it.
use e2e_chat_rs.Prelude.{
  ℕ_eq, Option, none, some, leb, if◌then◌else◌, text, ◌!=◌, Result, ok, err, ok_or, pure, raise,
  lift, reads, modify, ◌>>=◌, ◌>>◌,
}
use e2e_chat_rs.Prelude.Words.{add_u32}
use e2e_chat_rs.Prelude.Maps
use e2e_chat_rs.ChatCore.Types.{MessageId, PublicKeyBytes, RekeyId, RekeyId_eq}
use e2e_chat_rs.ChatCore.Event.{
  EncryptedEnvelope, SessionPayload, chat, rekey_request, rekey_response,
}
use e2e_chat_rs.ChatCore.Crypto.Primitives.{Bytes, Primitives}
use e2e_chat_rs.ChatCore.Crypto.Session.{
  CryptoError, CryptoSession, SessionMethod, PendingRekey, is_some, is_rekey_in_progress,
  key_derivation_failed, rekey_already_in_progress, unknown_rekey_id, no_staged_rekey,
  payload_serialization_failed, payload_deserialization_failed,
}
use e2e_chat_rs.ChatCore.Crypto.Cipher.{encrypt, decrypt}

abbrev pub rekey_master_label : Bytes
rekey_master_label = text "e2e-chat-rs/rekey-master/v1"

-- The epoch goes up, and of the nonces seen those of the new epoch and the one before are kept.
unfoldable pub apply_next_master : Bytes → CryptoSession → CryptoSession
apply_next_master next_master s =
    let epoch = add_u32 s.epoch 1 in
    record s {
      master_secret = next_master;
      epoch = epoch;
      inbound_nonces =
          Maps.retain s.inbound_nonces (λ generation. leb epoch (add_u32 generation 1));
    }

unfoldable pub commit_staged_rekey : SessionMethod (Unit {0})
unfolding apply_next_master
commit_staged_rekey s = elim s.staged_master [
  | none ↦ (err no_staged_rekey, s)
  | some staged ↦ (ok tt, apply_next_master staged (record s { staged_master = none }))
]

module _ (prim : Primitives) where
  -- The new master is chained to the old one.
  unfoldable pub compute_next_master : CryptoSession → Bytes → Result Bytes CryptoError
  compute_next_master s ephemeral_shared =
      ok_or (prim.hkdf s.master_secret ephemeral_shared rekey_master_label 32) key_derivation_failed

  unfoldable pub start_rekey : RekeyId → Bytes → SessionMethod SessionPayload
  start_rekey rekey_id ephemeral_secret s =
      if is_some s.pending_rekey then (err rekey_already_in_progress, s) else (
        ok (rekey_request rekey_id (record { bytes = prim.x25519_public ephemeral_secret })),
        record s {
          pending_rekey =
              some (record { rekey_id = rekey_id; ephemeral_secret = ephemeral_secret });
        },
      )

  respond : RekeyId → PublicKeyBytes → Bytes → SessionMethod (Option SessionPayload)
  unfolding compute_next_master
  respond rekey_id ephemeral_public_key ephemeral_secret s =
      if is_rekey_in_progress s
      then (err rekey_already_in_progress, s)
      else (do
        next_master ←
            reads
              (λ s. compute_next_master s (prim.x25519 ephemeral_secret ephemeral_public_key.bytes))
        modify (λ s. record s { staged_master = some next_master })
        pure (
            some
              (rekey_response rekey_id (record { bytes = prim.x25519_public ephemeral_secret }))))
          s

  complete : Option PendingRekey → RekeyId → PublicKeyBytes → SessionMethod (Option SessionPayload)
  unfolding compute_next_master apply_next_master
  complete none rekey_id ephemeral_public_key = raise unknown_rekey_id
  complete (some pending) rekey_id ephemeral_public_key =
      if pending.rekey_id != rekey_id then raise unknown_rekey_id else (do
        next_master ← reads (λ s.
            compute_next_master s (prim.x25519 pending.ephemeral_secret ephemeral_public_key.bytes))
        modify (λ s. record (apply_next_master next_master s) { pending_rekey = none })
        pure none)

  -- The last argument is the ephemeral secret that a responder draws.
  unfoldable pub handle_session_payload :
      SessionPayload → Bytes → SessionMethod (Option SessionPayload)
  unfolding respond complete
  handle_session_payload (chat words) drawn s = (ok none, s)
  handle_session_payload (rekey_request rekey_id ephemeral_public_key) drawn s =
      respond rekey_id ephemeral_public_key drawn s
  handle_session_payload (rekey_response rekey_id ephemeral_public_key) drawn s =
      complete s.pending_rekey rekey_id ephemeral_public_key s

  unfoldable pub encrypt_payload : MessageId → SessionPayload → SessionMethod EncryptedEnvelope
  encrypt_payload message_id payload = do
    bytes ← lift (ok_or (prim.payload_to_vec payload) payload_serialization_failed)
    encrypt prim message_id bytes

  unfoldable pub decrypt_payload : EncryptedEnvelope → SessionMethod SessionPayload
  decrypt_payload envelope = do
    bytes ← decrypt prim envelope
    lift (ok_or (prim.payload_from_slice bytes) payload_deserialization_failed)
