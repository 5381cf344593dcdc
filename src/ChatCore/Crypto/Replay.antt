-- ===== src/ChatCore/Crypto/Replay.antt =====
-- The replay protection of crypto.rs, over histories of a session.
use e2e_chat_rs.Prelude.{
  ℕ, ◌+◌, ◌≤◌, ◌<◌, ◌≡◌, refl, ◌⊎◌, inl, inr, List, [], ◌∷◌, arith, All, Distinct, true, false,
  ℕ_eq, ok, Result-cases, Bool-cases, length, ◌≢◌,
}
use e2e_chat_rs.Prelude.Words.{u32_mod}
use e2e_chat_rs.ChatCore.Types.{NonceBytes, NonceBytes_eq}
use e2e_chat_rs.ChatCore.Event.{
  EncryptedEnvelope, SessionPayload, chat, rekey_request, rekey_response,
}
use e2e_chat_rs.ChatCore.Crypto.Primitives.{Bytes, Primitives}
use e2e_chat_rs.ChatCore.Crypto.Session.{CryptoSession}
use e2e_chat_rs.ChatCore.Crypto.Cipher.{next_nonce, encrypt, decrypt, accepts_epoch, open_envelope}
use e2e_chat_rs.ChatCore.Crypto.Rekey.{
  start_rekey, handle_session_payload, commit_staged_rekey, encrypt_payload, decrypt_payload,
  apply_next_master,
}
use e2e_chat_rs.ChatCore.Crypto.Runs.{
  Call, encrypts, encrypts_payload, decrypts, decrypts_payload, starts_rekey, handles, commits,
  after, accepted, all_accepted, IsTyped,
}
use e2e_chat_rs.ChatCore.Crypto.Marks.{
  seen, mark_inbound-keeps, mark_inbound-marks, accepts_epoch_bounds, apply_next_master-keeps,
  mark_inbound_lem, IsRecent, mark_inbound-IsRecent, apply_next_master-IsRecent,
}

-- What a call does to the memory, and what it accepts.
pub record Remembers (s t : CryptoSession) (taken : List (ℕ × NonceBytes)) : Type 0 where
  pub grows : s.epoch ≤ t.epoch
  pub by_one : t.epoch ≤ s.epoch + 1
  pub recent : IsRecent s → IsRecent t
  pub kept :
      (e : ℕ) (n : NonceBytes)
      → e ≤ s.epoch
      → t.epoch ≤ e + 1
      → seen s e n ≡ true
      → seen t e n ≡ true
  pub takes :
      (taken ≡ [])
      ⊎ ((e : ℕ) × (n : NonceBytes) × (taken ≡ (e, n) ∷ [])
          × (s.epoch ≤ e + 1)
          × (e ≤ s.epoch)
          × (seen s e n ≡ false)
          × (seen t e n ≡ true))

-- A call that leaves the epoch and the trackers alone, and accepts nothing.
unchanged :
    (s t : CryptoSession)
    → t.epoch ≡ s.epoch
    → t.inbound_nonces ≡ s.inbound_nonces
    → Remembers s t []
unchanged s t e m = record {
  grows = omega arith;
  by_one = omega arith;
  recent = λ r k n h. ground (arith, r k n);
  kept = λ k n _ _ h. rw m h;
  takes = inl refl;
}

-- Whether a call left the epoch and the trackers alone, or rotated the key.
abbrev Rotates : CryptoSession → CryptoSession → Type 0
Rotates s t =
    ((t.epoch ≡ s.epoch) × (t.inbound_nonces ≡ s.inbound_nonces))
    ⊎ ((t.epoch ≡ (apply_next_master [] s).epoch)
        × (t.inbound_nonces ≡ (apply_next_master [] s).inbound_nonces))

Rotates-Remembers : (s t : CryptoSession) → s.epoch + 1 < u32_mod → Rotates s t → Remembers s t []
Rotates-Remembers s t fits (inl h) = unchanged s t h.0 h.1
Rotates-Remembers s t fits (inr h) =
    unfold apply_next_master in
    record {
      grows = omega arith;
      by_one = omega arith;
      recent = λ r k n m. ground (arith, apply_next_master-IsRecent [] s fits r k n);
      kept = λ k n le ge m. rw h.1 (apply_next_master-keeps [] s k n fits le (omega arith) m);
      takes = inl refl;
    }

module _ (prim : Primitives) where
  open_envelope-accepts_epoch :
      (envelope : EncryptedEnvelope) (s : CryptoSession) (plaintext : Bytes)
      → open_envelope prim envelope s ≡ ok plaintext
      → accepts_epoch s envelope.epoch ≡ true
  unfolding open_envelope
  open_envelope-accepts_epoch envelope s plaintext h = ground arith

  decrypt-Remembers :
      (envelope : EncryptedEnvelope) (s : CryptoSession)
      → envelope.epoch < u32_mod
      → Remembers s (decrypt prim envelope s).1 (accepted prim (decrypts envelope) s)
  unfolding accepted decrypt
  decrypt-Remembers envelope s fits = elim (Result-cases (open_envelope prim envelope s)) [
    | inr (e, h) ↦ rw h (unchanged s s refl refl)
    | inl (plaintext, h) ↦
        let marked = mark_inbound_lem envelope.epoch envelope.nonce s in
        let bounds =
          accepts_epoch_bounds s envelope.epoch fits
            (open_envelope-accepts_epoch envelope s plaintext h) in
        record {
          grows = rw h (ground (arith, marked));
          by_one = rw h (ground (arith, marked));
          recent = λ r k n m. ground (
            arith,
            h,
            marked,
            mark_inbound-IsRecent envelope.epoch envelope.nonce s bounds.0 bounds.1 r k n,
          );
          kept = λ k n _ _ m.
              rw h
                (ground (arith, marked, mark_inbound-keeps envelope.epoch k envelope.nonce n s m));
          takes = elim (Bool-cases (seen s envelope.epoch envelope.nonce)) [
            | inl old ↦ inl (rw h (ground (arith, marked)))
            | inr new ↦ inr (
              envelope.epoch,
              envelope.nonce,
              rw h (ground (arith, marked)),
              bounds.0,
              bounds.1,
              new,
              rw h (ground (arith, marked, mark_inbound-marks envelope.epoch envelope.nonce s)),
            )
          ];
        }
  ]

  decrypt_payload-decrypt :
      (envelope : EncryptedEnvelope) (s : CryptoSession)
      → (decrypt_payload prim envelope s).1 ≡ (decrypt prim envelope s).1
  unfolding decrypt_payload
  decrypt_payload-decrypt envelope s = ground arith

  handle_session_payload-Rotates :
      (payload : SessionPayload) (secret : Bytes) (s : CryptoSession)
      → Rotates s (handle_session_payload prim payload secret s).1
  unfolding handle_session_payload
  handle_session_payload-Rotates (chat words) secret s = inl (refl, refl)
  handle_session_payload-Rotates (rekey_request id key) secret s = inl (ground arith, ground arith)
  handle_session_payload-Rotates (rekey_response id key) secret s = ground arith

  commit_staged_rekey-Rotates : (s : CryptoSession) → Rotates s (commit_staged_rekey s).1
  unfolding commit_staged_rekey
  commit_staged_rekey-Rotates s = ground arith

  pub after-Remembers :
      (c : Call) (s : CryptoSession)
      → IsTyped c
      → s.epoch + 1 < u32_mod
      → Remembers s (after prim c s) (accepted prim c s)
  unfolding after accepted
  after-Remembers (encrypts message_id plaintext) s typed fits =
      unfold encrypt next_nonce in unchanged s _ (ground arith) (ground arith)
  after-Remembers (encrypts_payload message_id payload) s typed fits =
      unfold encrypt_payload encrypt next_nonce in unchanged s _ (ground arith) (ground arith)
  after-Remembers (decrypts envelope) s typed fits = decrypt-Remembers envelope s typed
  after-Remembers (decrypts_payload envelope) s typed fits =
      rw (decrypt_payload-decrypt envelope s) (decrypt-Remembers envelope s typed)
  after-Remembers (starts_rekey rekey_id secret) s typed fits =
      unfold start_rekey in unchanged s _ (ground arith) (ground arith)
  after-Remembers (handles payload secret) s typed fits =
      Rotates-Remembers s _ fits (handle_session_payload-Rotates payload secret s)
  after-Remembers commits s typed fits = Rotates-Remembers s _ fits (commit_staged_rekey-Rotates s)

  -- A pair that was accepted: its nonce is remembered while its epoch can still be decrypted.
  abbrev IsRemembered : CryptoSession → ℕ × NonceBytes → Type 0
  IsRemembered s (e, n) = (e ≤ s.epoch) × (s.epoch ≤ e + 1 → seen s e n ≡ true)

  Remembers-IsRemembered :
      (s t : CryptoSession) (taken : List (ℕ × NonceBytes)) (e : ℕ) (n : NonceBytes)
      → Remembers s t taken
      → IsRemembered s (e, n)
      → IsRemembered t (e, n)
  Remembers-IsRemembered s t taken e n step h =
      let le = step.grows in (omega arith, λ ge. step.kept e n h.0 ge (h.1 (omega arith)))

  all_accepted-ne :
      (cs : List Call) (s : CryptoSession) (e : ℕ) (n : NonceBytes)
      → All IsTyped cs
      → s.epoch + length cs < u32_mod
      → IsRemembered s (e, n)
      → All (λ pair. (e, n) ≢ pair) (all_accepted prim cs s)
  unfolding all_accepted
  all_accepted-ne [] s e n typed fits h = tt
  all_accepted-ne (c ∷ cs) s e n typed fits h =
      let step = after-Remembers c s typed.0 (omega arith) in
      let le = step.by_one in
      let rest =
        all_accepted-ne cs (after prim c s) e n typed.1 (omega arith)
          (Remembers-IsRemembered s (after prim c s) (accepted prim c s) e n step h) in
      elim step.takes [
        | inl none_taken ↦ rw none_taken rest
        | inr (k, m, taken, ge, _, fresh, _) ↦
            rw taken
              ((λ same. let old : seen s e n ≡ true = h.1 (ground arith) in ground arith), rest)
      ]

  -- Over any history of calls of one session, rekeys included and failing calls too, no two
  -- envelopes that were decrypted successfully have the same epoch and nonce: a replayed envelope
  -- is refused. The epochs of the envelopes are 32-bit numbers, and the history is too short to
  -- wrap the epoch of the session.
  pub all_accepted-Distinct :
      (cs : List Call) (s : CryptoSession)
      → All IsTyped cs
      → s.epoch + length cs < u32_mod
      → Distinct (all_accepted prim cs s)
  unfolding all_accepted
  all_accepted-Distinct [] s typed fits = tt
  all_accepted-Distinct (c ∷ cs) s typed fits =
      let step = after-Remembers c s typed.0 (omega arith) in
      let le = step.by_one in
      let rest = all_accepted-Distinct cs (after prim c s) typed.1 (omega arith) in
      elim step.takes [
        | inl none_taken ↦ rw none_taken rest
        | inr (k, m, taken, _, old, _, marked) ↦
            let up = step.grows in
            rw taken (
              all_accepted-ne cs (after prim c s) k m typed.1 (omega arith)
                  (omega arith, λ _. marked),
              rest,
            )
      ]
