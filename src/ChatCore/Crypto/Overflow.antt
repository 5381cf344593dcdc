-- ===== src/ChatCore/Crypto/Overflow.antt =====
-- `decrypt` of crypto.rs in a build with overflow checks, which panics where a sum overflows.
use e2e_chat_rs.Prelude.{
  ℕ, ◌+◌, ◌^◌, ◌<◌, ◌≡◌, ◌↔◌, ◌⊎◌, Bool, true, false, ◌||◌, Option, none, some, ltb, ◌==◌, ◌!=◌,
  ℕ_eq, if◌then◌else◌, Result, err, arith, Bool-cases, inl, inr,
}
use e2e_chat_rs.ChatCore.Types.{ClientId_eq}
use e2e_chat_rs.ChatCore.Event.{EncryptedEnvelope}
use e2e_chat_rs.ChatCore.Crypto.Primitives.{Bytes, Primitives}
use e2e_chat_rs.ChatCore.Crypto.Session.{CryptoError, CryptoSession, unexpected_peer, unknown_epoch}
use e2e_chat_rs.ChatCore.Crypto.Cipher.{accepts_epoch, open_envelope, decrypt}

-- The test of the epoch, or `none` where its sum panics. Both parts of it are computed.
unfoldable pub accepts_epoch_checked : CryptoSession → ℕ → Option Bool
accepts_epoch_checked s epoch =
    if ltb 0 s.epoch
    then if ltb (epoch + 1) (2 ^ 32) then some (epoch == s.epoch || epoch + 1 == s.epoch) else none
    else some (epoch == s.epoch)

module _ (prim : Primitives) where
  -- `decrypt` with that test; what follows the test has no sum.
  unfoldable pub decrypt_checked :
      EncryptedEnvelope → CryptoSession → Option (Result Bytes CryptoError × CryptoSession)
  decrypt_checked envelope s =
      if envelope.sender != s.peer_id || envelope.recipient != s.local_id
      then some (err unexpected_peer, s)
      else elim (accepts_epoch_checked s envelope.epoch) [
        | none ↦ none
        | some accepted ↦
            some (if accepted then decrypt prim envelope s else (err unknown_epoch, s))
      ]

  decrypt-unexpected :
      (envelope : EncryptedEnvelope) (s : CryptoSession)
      → (envelope.sender != s.peer_id || envelope.recipient != s.local_id) ≡ true
      → decrypt prim envelope s ≡ (err unexpected_peer, s)
  unfolding decrypt open_envelope
  decrypt-unexpected envelope s h = ground arith

  decrypt-unknown :
      (envelope : EncryptedEnvelope) (s : CryptoSession)
      → (envelope.sender != s.peer_id || envelope.recipient != s.local_id) ≡ false
      → accepts_epoch s envelope.epoch ≡ false
      → decrypt prim envelope s ≡ (err unknown_epoch, s)
  unfolding decrypt open_envelope
  decrypt-unknown envelope s h unknown = ground arith

  accepts_epoch_checked_cases :
      (s : CryptoSession) (epoch : ℕ)
      → epoch < 2 ^ 32
      → ((0 < s.epoch) × (epoch + 1 ≡ 2 ^ 32) × (accepts_epoch_checked s epoch ≡ none))
        ⊎ (((0 < s.epoch) → epoch + 1 < 2 ^ 32)
            × (accepts_epoch_checked s epoch ≡ some (accepts_epoch s epoch)))
  unfolding accepts_epoch_checked accepts_epoch
  accepts_epoch_checked_cases s epoch fits = elim (Bool-cases (ltb 0 s.epoch)) [
    | inr first ↦ inr (λ h. ground arith, ground arith)
    | inl rekeyed ↦ elim (Bool-cases (ltb (epoch + 1) (2 ^ 32))) [
      | inl below ↦ inr (λ h. ground arith, ground arith)
      | inr over ↦ inl (ground arith, ground arith, ground arith)
    ]
  ]

  -- In a build with overflow checks, decrypt panics exactly on an envelope that names the peer as
  -- its sender and the session as its recipient and has the epoch u32::MAX, at a session that has
  -- rekeyed at least once, whatever its nonce and ciphertext are; on every other envelope it does
  -- what it does in a build without these checks. The epoch of the envelope is a u32.
  pub decrypt_checked_panics :
      (envelope : EncryptedEnvelope) (s : CryptoSession)
      → envelope.epoch < 2 ^ 32
      → ((decrypt_checked envelope s ≡ none) ↔ (
          (envelope.sender ≡ s.peer_id)
          × (envelope.recipient ≡ s.local_id)
          × (0 < s.epoch)
          × (envelope.epoch + 1 ≡ 2 ^ 32)))
        × ((decrypt_checked envelope s ≡ none)
            ⊎ (decrypt_checked envelope s ≡ some (decrypt prim envelope s)))
  unfolding decrypt_checked
  decrypt_checked_panics envelope s fits =
      elim (Bool-cases (envelope.sender != s.peer_id || envelope.recipient != s.local_id)) [
        | inl other ↦ (
          (λ h. ground arith, λ h. ground arith),
          inr (ground (arith, decrypt-unexpected envelope s other)),
        )
        | inr peer ↦ elim (accepts_epoch_checked_cases s envelope.epoch fits) [
          | inl (rekeyed, last, panics) ↦
              ((λ h. ground arith, λ h. ground arith), inl (ground arith))
          | inr (below, same) ↦ (
            (λ h. ground arith, λ h. ground (arith, below)),
            inr (elim (Bool-cases (accepts_epoch s envelope.epoch)) [
              | inl known ↦ ground arith
              | inr unknown ↦ ground (arith, decrypt-unknown envelope s peer unknown)
            ]),
          )
        ]
      ]

  pub decrypt_checked_below :
      (envelope : EncryptedEnvelope) (s : CryptoSession)
      → envelope.epoch + 1 < 2 ^ 32
      → decrypt_checked envelope s ≡ some (decrypt prim envelope s)
  decrypt_checked_below envelope s below =
      let (when, so) = decrypt_checked_panics envelope s (omega arith) in
      elim so [ inl panics ↦ absurd (ground (arith, when.0 panics)) | inr same ↦ same ]
