-- ===== src/ChatCore/Crypto/Refusal.antt =====
-- What `decrypt` of crypto.rs does with an envelope that it refuses.
use e2e_chat_rs.ChatCore.Event.{EncryptedEnvelope}
use e2e_chat_rs.ChatCore.Crypto.Cipher.{decrypt, open_envelope, mark_inbound}
use e2e_chat_rs.ChatCore.Types.{NonceBytes}
use e2e_chat_rs.ChatCore.Crypto.Primitives.{Primitives, Bytes}
use e2e_chat_rs.Prelude.{
  refl, inl, inr, ok, err, arith, Result-cases, Bool-cases, get_or, ℕ, ◌≡◌, true, if◌then◌else◌,
  ◌⊎◌, ℕ_eq,
}
use e2e_chat_rs.Prelude.Maps
use e2e_chat_rs.ChatCore.Nonce
use e2e_chat_rs.ChatCore.Nonce.{mark_seen}
use e2e_chat_rs.ChatCore.Crypto.Session.{CryptoSession, CryptoError, duplicate_nonce}
use e2e_chat_rs.ChatCore.Crypto.Marks.{seen, mark_inbound_lem}
use e2e_chat_rs.ChatCore.Crypto.Linked.{SameButMarks, mark_inbound-SameButMarks}

-- The same fields, and the same nonces marked.
pub record SameSession (s t : CryptoSession) : Type 0 where
  pub same : SameButMarks s t
  pub marks : (e : ℕ) (n : NonceBytes) → seen t e n ≡ seen s e n

mark_inbound-SameSession :
    (epoch : ℕ) (nonce : NonceBytes) (s : CryptoSession)
    → seen s epoch nonce ≡ true
    → SameSession s (mark_inbound epoch nonce s).1
mark_inbound-SameSession epoch nonce s old = record {
  same = mark_inbound-SameButMarks epoch nonce s;
  marks = λ e n.
      unfold mark_inbound mark_seen in
      ground (
        arith,
        old,
        Maps.get-insert s.inbound_nonces epoch e
            (mark_seen (get_or (Maps.get s.inbound_nonces epoch) Nonce.default) nonce).1,
      );
}

SameSession-refl : (s : CryptoSession) → SameSession s s
SameSession-refl s = record { same = ground arith; marks = λ e n. refl }

module _ (prim : Primitives) where
  -- `decrypt`, as its two tests: whether the envelope opens, and whether its nonce is new.
  decrypt_lem :
      (envelope : EncryptedEnvelope) (s : CryptoSession)
      → decrypt prim envelope s ≡ elim (open_envelope prim envelope s) [
        | err e ↦ (err e, s)
        | ok plaintext ↦ (
          if seen s envelope.epoch envelope.nonce then err duplicate_nonce else ok plaintext,
          (mark_inbound envelope.epoch envelope.nonce s).1,
        )
      ]
  unfolding decrypt
  decrypt_lem envelope s = elim (Result-cases (open_envelope prim envelope s)) [
    | inl (plaintext, h) ↦ ground (arith, mark_inbound_lem envelope.epoch envelope.nonce s)
    | inr (e, h) ↦ ground arith
  ]

  -- An envelope that a session refuses to decrypt leaves it as it was, in all fields and in the
  -- nonces that are marked; it is refused with the error of opening it, or, if it opens, as a
  -- duplicate because its nonce is marked for its epoch.
  pub decrypt_refuses :
      (envelope : EncryptedEnvelope) (s : CryptoSession) (e : CryptoError)
      → (decrypt prim envelope s).0 ≡ err e
      → SameSession s (decrypt prim envelope s).1
        × ((open_envelope prim envelope s ≡ err e)
            ⊎ ((e ≡ duplicate_nonce)
                × (seen s envelope.epoch envelope.nonce ≡ true)
                × ((plaintext : Bytes) × (open_envelope prim envelope s ≡ ok plaintext))))
  decrypt_refuses envelope s e h = elim (Result-cases (open_envelope prim envelope s)) [
    | inr (x, closed) ↦
        let same : decrypt prim envelope s ≡ (err x, s) = ground (arith, decrypt_lem envelope s) in
        (rw same (SameSession-refl s), inl (ground arith))
    | inl (plaintext, opens) ↦ elim (Bool-cases (seen s envelope.epoch envelope.nonce)) [
      | inr new ↦ absurd (ground (arith, decrypt_lem envelope s))
      | inl old ↦
          let same : decrypt prim envelope s
              ≡ (err duplicate_nonce, (mark_inbound envelope.epoch envelope.nonce s).1) =
            ground (arith, decrypt_lem envelope s) in
          (
            rw same (mark_inbound-SameSession envelope.epoch envelope.nonce s old),
            inr (ground arith, old, (plaintext, opens)),
          )
    ]
  ]
