-- ===== src/ChatCore/Crypto/OutboundNonces.antt =====
-- The nonces of the envelopes that a session of crypto.rs sends.
use e2e_chat_rs.Prelude.{
  ℕ, ◌≤◌, ◌<◌, ◌≡◌, refl, ◌⊎◌, inl, inr, List, [], ◌∷◌, ◌++◌, arith, All, Distinct, ap, ◌≢◌, subst,
  All-map, ◌∙◌,
}
use e2e_chat_rs.Prelude.Words.{u64_mod, to_be_bytes, to_be_bytes-injective}
use e2e_chat_rs.ChatCore.Types.{NonceBytes}
use e2e_chat_rs.ChatCore.Crypto.Primitives.{Bytes, Primitives}
use e2e_chat_rs.ChatCore.Crypto.Session.{CryptoSession}
use e2e_chat_rs.ChatCore.Crypto.Cipher.{next_nonce, encrypt, decrypt, mark_inbound}
use e2e_chat_rs.ChatCore.Crypto.Rekey.{
  start_rekey, handle_session_payload, commit_staged_rekey, encrypt_payload, decrypt_payload,
}
use e2e_chat_rs.ChatCore.Crypto.Runs.{
  Call, encrypts, encrypts_payload, decrypts, decrypts_payload, starts_rekey, handles, commits,
  after, sent, all_sent,
}

-- The nonce of the `n`-th message.
abbrev pub nonce_at : Bytes → ℕ → NonceBytes
nonce_at prefix n = record { bytes = prefix ++ to_be_bytes 8 n }

-- A call sends nothing, or the nonce that the counter has reached.
pub record Advances (s t : CryptoSession) (nonces : List NonceBytes) : Type 0 where
  pub prefix : t.outbound_nonce_prefix ≡ s.outbound_nonce_prefix
  pub grows : s.next_outbound_nonce ≤ t.next_outbound_nonce
  pub fits : s.next_outbound_nonce < u64_mod → t.next_outbound_nonce < u64_mod
  pub sends :
      (nonces ≡ [])
      ⊎ ((nonces ≡ nonce_at s.outbound_nonce_prefix t.next_outbound_nonce ∷ [])
          × (s.next_outbound_nonce < t.next_outbound_nonce))

module _ (prim : Primitives) where
  pub after-Advances : (c : Call) (s : CryptoSession) → Advances s (after prim c s) (sent prim c s)
  unfolding after sent
  after-Advances (encrypts message_id plaintext) s = unfold encrypt next_nonce in ground arith
  after-Advances (encrypts_payload message_id payload) s =
      unfold encrypt_payload encrypt next_nonce in ground arith
  after-Advances (decrypts envelope) s = unfold decrypt mark_inbound in ground arith
  after-Advances (decrypts_payload envelope) s =
      unfold decrypt_payload decrypt mark_inbound in ground arith
  after-Advances (starts_rekey rekey_id secret) s = unfold start_rekey in ground arith
  after-Advances (handles payload secret) s = unfold handle_session_payload in ground arith
  after-Advances commits s = unfold commit_staged_rekey in ground arith

-- The nonce of a message later than the `low`-th.
abbrev pub IsAfter : Bytes → ℕ → NonceBytes → Type 0
IsAfter prefix low nonce = (n : ℕ) × (nonce ≡ nonce_at prefix n) × (low < n) × (n < u64_mod)

All-IsAfter-mono :
    (prefix : Bytes) (low high : ℕ) (nonces : List NonceBytes)
    → low ≤ high
    → All (IsAfter prefix high) nonces
    → All (IsAfter prefix low) nonces
All-IsAfter-mono prefix low high nonces h =
    All-map {P = IsAfter prefix high} {Q = IsAfter prefix low}
      (λ nonce a. (a.0, a.1, omega arith, a.3)) nonces

pub append_cancel : (xs ys zs : Bytes) → xs ++ ys ≡ xs ++ zs → ys ≡ zs
append_cancel [] ys zs e = e
append_cancel (x ∷ xs) ys zs e = append_cancel xs ys zs (cc)

pub nonce_at-ne :
    (prefix : Bytes) (m n : ℕ) → m < n → n < u64_mod → nonce_at prefix m ≢ nonce_at prefix n
nonce_at-ne prefix m n h fits e =
    let same : m ≡ n = to_be_bytes-injective 8 m n (omega arith) fits (
      append_cancel prefix (to_be_bytes 8 m) (to_be_bytes 8 n)
        (ap (λ (x : NonceBytes). x.bytes) e)) in
    omega arith

All-IsAfter-ne :
    (prefix : Bytes) (low : ℕ) (nonces : List NonceBytes)
    → All (IsAfter prefix low) nonces
    → All (λ nonce. nonce_at prefix low ≢ nonce) nonces
All-IsAfter-ne prefix low nonces =
    All-map {P = IsAfter prefix low} {Q = λ nonce. nonce_at prefix low ≢ nonce}
      (λ nonce a e. nonce_at-ne prefix low a.0 a.2 a.3 (e ∙ a.1)) nonces

module _ (prim : Primitives) where
  rest-IsAfter :
      (c : Call) (cs : List Call) (s : CryptoSession)
      → All
          (IsAfter (after prim c s).outbound_nonce_prefix (after prim c s).next_outbound_nonce)
          (all_sent prim cs (after prim c s))
      → All
          (IsAfter s.outbound_nonce_prefix (after prim c s).next_outbound_nonce)
          (all_sent prim cs (after prim c s))
  rest-IsAfter c cs s =
      subst
        (λ p.
          All (IsAfter p (after prim c s).next_outbound_nonce) (all_sent prim cs (after prim c s)))
        (after-Advances prim c s).prefix

  pub all_sent-IsAfter :
      (cs : List Call) (s : CryptoSession)
      → s.next_outbound_nonce < u64_mod
      → All (IsAfter s.outbound_nonce_prefix s.next_outbound_nonce) (all_sent prim cs s)
  unfolding all_sent
  all_sent-IsAfter [] s fits = tt
  all_sent-IsAfter (c ∷ cs) s fits =
      let step = after-Advances prim c s in
      let t = after prim c s in
      let rest =
        All-IsAfter-mono s.outbound_nonce_prefix s.next_outbound_nonce t.next_outbound_nonce
          (all_sent prim cs t) step.grows
          (rest-IsAfter c cs s (all_sent-IsAfter cs t (step.fits fits))) in
      elim step.sends [
        | inl e ↦ rw e rest
        | inr e ↦ rw e.0 ((t.next_outbound_nonce, refl, e.1, step.fits fits), rest)
      ]

  -- Over any history of calls of one session, failing or not, rekeys included, all the envelopes
  -- that it encrypts carry different nonces, when it starts with a counter of 64 bits: the counter
  -- is refused at its end and never wraps.
  pub all_sent-Distinct :
      (cs : List Call) (s : CryptoSession)
      → s.next_outbound_nonce < u64_mod
      → Distinct (all_sent prim cs s)
  unfolding all_sent
  all_sent-Distinct [] s fits = tt
  all_sent-Distinct (c ∷ cs) s fits =
      let step = after-Advances prim c s in
      let t = after prim c s in
      let rest = all_sent-Distinct cs t (step.fits fits) in
      elim step.sends [
        | inl e ↦ rw e rest
        | inr e ↦ rw e.0 (
          All-IsAfter-ne s.outbound_nonce_prefix t.next_outbound_nonce (all_sent prim cs t)
              (rest-IsAfter c cs s (all_sent-IsAfter cs t (step.fits fits))),
          rest,
        )
      ]
