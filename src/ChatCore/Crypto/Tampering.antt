-- ===== src/ChatCore/Crypto/Tampering.antt =====
-- What the authentication of the cipher binds in an envelope of crypto.rs.
use e2e_chat_rs.ChatCore.{protocol_version}
use e2e_chat_rs.Prelude.{ℕ, ◌≡◌, some, ok, arith, Result-cases, inl, inr, ap}
use e2e_chat_rs.ChatCore.Types.{ClientId, MessageId}
use e2e_chat_rs.ChatCore.Event.{EncryptedEnvelope}
use e2e_chat_rs.ChatCore.Crypto.Primitives.{
  Bytes, Primitives, AssociatedData, AeadBinds, AssociatedDataInjective,
}
use e2e_chat_rs.ChatCore.Crypto.Session.{CryptoSession}
use e2e_chat_rs.ChatCore.Crypto.Cipher.{
  cipher_for, associated_data_for, next_nonce, encrypt, open_envelope,
}

-- What went into the ciphertext of an envelope at a session.
record Sealed (prim : Primitives) (s : CryptoSession) (message : Bytes) (e : EncryptedEnvelope)
    : Type 0 where
  key : Bytes
  aad : Bytes
  keyed : cipher_for prim s e.epoch ≡ ok key
  bound : associated_data_for prim e.sender e.recipient e.message_id e.epoch ≡ ok aad

module _ (prim : Primitives) where
  encrypt-Sealed :
      (id : MessageId) (message : Bytes) (a a' : CryptoSession) (e : EncryptedEnvelope)
      → encrypt prim id message a ≡ (ok e, a')
      → (s : Sealed prim a message e) × (prim.aead_encrypt s.key e.nonce.bytes message s.aad
          ≡ some e.ciphertext.bytes)
  unfolding encrypt next_nonce
  encrypt-Sealed id message a a' e h = elim (Result-cases (cipher_for prim a a.epoch)) [
    | inr (x, failed) ↦ absurd (ground arith)
    | inl (key, keyed) ↦
        elim (Result-cases (associated_data_for prim a.local_id a.peer_id id a.epoch)) [
          | inr (x, failed) ↦ absurd (ground arith)
          | inl (aad, bound) ↦ (
            record { key = key; aad = aad; keyed = ground arith; bound = ground arith },
            ground arith,
          )
        ]
  ]

  open_envelope-Sealed :
      (message : Bytes) (b : CryptoSession) (e : EncryptedEnvelope)
      → open_envelope prim e b ≡ ok message
      → (s : Sealed prim b message e) × (prim.aead_decrypt s.key e.nonce.bytes e.ciphertext.bytes
            s.aad
          ≡ some message)
  unfolding open_envelope
  open_envelope-Sealed message b e h = elim (Result-cases (cipher_for prim b e.epoch)) [
    | inr (x, failed) ↦ absurd (ground arith)
    | inl (key, keyed) ↦
        elim (Result-cases (associated_data_for prim e.sender e.recipient e.message_id e.epoch)) [
          | inr (x, failed) ↦ absurd (ground arith)
          | inl (aad, bound) ↦
              (record { key = key; aad = aad; keyed = keyed; bound = bound }, ground arith)
        ]
  ]

  associated_data_for-injective :
      AssociatedDataInjective prim
      → (sender recipient sender' recipient' : ClientId) (id id' : MessageId) (epoch epoch' : ℕ)
        (aad : Bytes)
      → associated_data_for prim sender recipient id epoch ≡ ok aad
      → associated_data_for prim sender' recipient' id' epoch' ≡ ok aad
      → (sender ≡ sender') × (recipient ≡ recipient') × (id ≡ id') × (epoch ≡ epoch')
  unfolding associated_data_for
  associated_data_for-injective injective sender recipient sender' recipient' id id' epoch epoch'
        aad h h' =
      let data_of : ClientId → ClientId → MessageId → ℕ → AssociatedData = λ from to n at. record {
        version = protocol_version;
        sender = from;
        recipient = to;
        message_id = n;
        epoch = at;
      } in
      let same =
        injective (data_of sender recipient id epoch) (data_of sender' recipient' id' epoch') aad
          (ground arith) (ground arith) in
      (
        ap (λ (d : AssociatedData). d.sender) same,
        ap (λ (d : AssociatedData). d.recipient) same,
        ap (λ (d : AssociatedData). d.message_id) same,
        ap (λ (d : AssociatedData). d.epoch) same,
      )

  -- If a session opens an envelope that carries the ciphertext of an envelope that another session
  -- has encrypted, then it is that envelope, with sender, recipient, message id, epoch and nonce
  -- unaltered, and both sessions derive one key for its epoch. The cipher authenticates its key,
  -- nonce and associated data, and the JSON of associated data is injective.
  pub open_envelope-encrypt :
      (binds : AeadBinds prim) (injective : AssociatedDataInjective prim)
      → (id : MessageId) (message message' : Bytes) (a a' b : CryptoSession)
        (e e' : EncryptedEnvelope)
      → encrypt prim id message a ≡ (ok e, a')
      → open_envelope prim e' b ≡ ok message'
      → e'.ciphertext ≡ e.ciphertext
      → (e' ≡ e) × (cipher_for prim b e.epoch ≡ cipher_for prim a e.epoch)
  open_envelope-encrypt binds injective id message message' a a' b e e' sealed opened same =
      let (s, closes) = encrypt-Sealed id message a a' e sealed in
      let (t, opens) = open_envelope-Sealed message' b e' opened in
      let (keys, nonces, aads) =
        binds s.key e.nonce.bytes message s.aad e.ciphertext.bytes t.key e'.nonce.bytes message'
          t.aad closes (ground arith) in
      let fields =
        associated_data_for-injective injective e.sender e.recipient e'.sender e'.recipient
          e.message_id e'.message_id e.epoch e'.epoch s.aad s.bound (ground (arith, t)) in
      (ground arith, ground (arith, s, t))
