-- ===== src/ChatCore/Crypto/InFlight.antt =====
-- Envelopes that are under way while their receiver rekeys.
use e2e_chat_rs.Prelude.{ℕ, ◌+◌, ◌<◌, ◌≡◌, ◌≢◌, refl, ok, err, arith, Option-cases, inl, inr, ◌++◌}
use e2e_chat_rs.Prelude.Words.{u32_mod, to_be_bytes}
use e2e_chat_rs.ChatCore.Types.{MessageId}
use e2e_chat_rs.ChatCore.Event.{EncryptedEnvelope}
use e2e_chat_rs.ChatCore.Crypto.Primitives.{
  Bytes, Primitives, NeverFails, AeadBinds, AssociatedDataInjective, HkdfSeparates,
}
use e2e_chat_rs.ChatCore.Crypto.Session.{CryptoSession, authentication_failed}
use e2e_chat_rs.ChatCore.Crypto.Cipher.{
  cipher_for, encrypt, open_envelope, accepts_epoch, next_nonce, session_key_salt,
}
use e2e_chat_rs.ChatCore.Crypto.Rekey.{apply_next_master}
use e2e_chat_rs.ChatCore.Crypto.Delivery.{InSync, cipher_for_ok, associated_data_for_ok}
use e2e_chat_rs.ChatCore.Crypto.Tampering.{open_envelope-encrypt}

module _ (prim : Primitives) where
  encrypt-fields :
      (id : MessageId) (message : Bytes) (a a' : CryptoSession) (e : EncryptedEnvelope)
      → encrypt prim id message a ≡ (ok e, a')
      → (e.sender ≡ a.local_id) × (e.recipient ≡ a.peer_id) × (e.epoch ≡ a.epoch)
  unfolding encrypt next_nonce
  encrypt-fields id message a a' e h = ground arith

  module _ {max : ℕ} (law : NeverFails prim max) (binds : AeadBinds prim)
      (injective : AssociatedDataInjective prim) (separates : HkdfSeparates prim) where
    cipher_for-master :
        (a b : CryptoSession) (epoch : ℕ)
        → b.session_info ≡ a.session_info
        → cipher_for prim b epoch ≡ cipher_for prim a epoch
        → b.master_secret ≡ a.master_secret
    unfolding cipher_for
    cipher_for-master a b epoch info same =
        let ka =
          law.expands session_key_salt a.master_secret (a.session_info ++ to_be_bytes 4 epoch) in
        let kb =
          law.expands session_key_salt b.master_secret (a.session_info ++ to_be_bytes 4 epoch) in
        separates session_key_salt b.master_secret a.master_secret
          (a.session_info ++ to_be_bytes 4 epoch) ka.0 32 (ground (arith, ka, kb)) ka.1

    -- An envelope that was encrypted before its receiver rotated to another master is no longer
    -- opened after the rotation: although its epoch is accepted, it fails to authenticate. The two
    -- sessions were in step, the epoch does not wrap, the libraries never fail, the cipher
    -- authenticates what it binds, and HKDF and JSON give different texts for different inputs.
    pub in_flight_lost :
        (id : MessageId) (message next : Bytes) (a a' b : CryptoSession) (e : EncryptedEnvelope)
        → InSync a b
        → encrypt prim id message a ≡ (ok e, a')
        → next ≢ a.master_secret
        → b.epoch + 1 < u32_mod
        → open_envelope prim e (apply_next_master next b) ≡ err authentication_failed
    unfolding open_envelope accepts_epoch apply_next_master
    in_flight_lost id message next a a' b e sync sealed differs fits =
        let t = apply_next_master next b in
        let (from, to, at) = encrypt-fields id message a a' e sealed in
        let (key, keyed) = cipher_for_ok prim law t e.epoch in
        let (aad, bound) =
          associated_data_for_ok prim law e.sender e.recipient e.message_id e.epoch in
        elim (Option-cases (prim.aead_decrypt key e.nonce.bytes e.ciphertext.bytes aad)) [
          | inl fails ↦ ground (arith, sync)
          | inr (m, opens) ↦
              let opened : open_envelope prim e t ≡ ok m = ground (arith, sync) in
              let same =
                (open_envelope-encrypt prim binds injective id message m a a' t e e sealed opened
                  refl).1 in
              absurd (differs (cipher_for-master a t e.epoch sync.info same))
        ]
