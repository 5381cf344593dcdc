-- ===== src/ChatCore/Crypto/Bounds.antt =====
-- The sizes that the state and the envelopes of a session of crypto.rs keep.
use e2e_chat_rs.ChatCore.Crypto.Info.{nonce_prefix}
use e2e_chat_rs.ChatCore.Crypto.Primitives.{Bytes, Primitives}
use e2e_chat_rs.ChatCore.Types.{NonceBytes, PublicKeyBytes, ClientId}
use e2e_chat_rs.Prelude.{All-append, length-take, ◌<◌, ◌≡◌, ℕ, ◌+◌, List}
use e2e_chat_rs.ChatCore.Crypto.Session.{CryptoSession, KeyPair, new}
use e2e_chat_rs.Prelude.Maps
use e2e_chat_rs.Prelude.{[], ◌∷◌, inl, inr, arith, All, length, length-append}
use e2e_chat_rs.Prelude.Words.{u32_mod, u64_mod, to_be_bytes, length-to_be_bytes}
use e2e_chat_rs.ChatCore.Crypto.Runs.{Call, after, after_all, sent, all_sent, IsTyped}
use e2e_chat_rs.ChatCore.Crypto.Marks.{IsRecent}
use e2e_chat_rs.ChatCore.Crypto.Replay.{after-Remembers}
use e2e_chat_rs.ChatCore.Crypto.OutboundNonces.{nonce_at, after-Advances}

-- The words fit, the prefix of nonces has its sixteen bytes, and the memory is short.
pub record IsBounded (s : CryptoSession) : Type 0 where
  pub counter : s.next_outbound_nonce < u64_mod
  pub epoch : s.epoch < u32_mod
  pub prefix : length s.outbound_nonce_prefix ≡ 16
  pub recent : IsRecent s

-- The 24 bytes of an XNonce.
abbrev pub IsSized : NonceBytes → Type 0
IsSized nonce = length nonce.bytes ≡ 24

nonce_at-IsSized : (prefix : Bytes) (n : ℕ) → length prefix ≡ 16 → IsSized (nonce_at prefix n)
nonce_at-IsSized prefix n h =
    omega (arith, length-append prefix (to_be_bytes 8 n), length-to_be_bytes 8 n)

module _ (prim : Primitives) where
  after-IsBounded :
      (c : Call) (s : CryptoSession)
      → IsTyped c
      → s.epoch + 1 < u32_mod
      → IsBounded s
      → IsBounded (after prim c s) × All IsSized (sent prim c s)
  after-IsBounded c s typed fits h =
      let step = after-Advances prim c s in
      let memory = after-Remembers prim c s typed fits in
      (
        record {
          counter = step.fits h.counter;
          epoch = omega (arith, memory.by_one);
          prefix = rw step.prefix h.prefix;
          recent = memory.recent h.recent;
        },
        elim step.sends [
          | inl e ↦ rw e tt
          | inr e ↦ rw e.0 (
            nonce_at-IsSized s.outbound_nonce_prefix (after prim c s).next_outbound_nonce h.prefix,
            tt,
          )
        ],
      )

  -- Over any history of calls of one session, the nonce counter stays below 2^64 and the epoch
  -- below 2^32, the nonces that are remembered are of the current epoch or the one before it, and
  -- every envelope that is encrypted has a nonce of 24 bytes, when the session starts so, with a
  -- nonce prefix of sixteen bytes. The epochs of the envelopes are 32-bit numbers, and the history
  -- is too short to wrap the epoch of the session.
  pub after_all-IsBounded :
      (cs : List Call) (s : CryptoSession)
      → All IsTyped cs
      → s.epoch + length cs < u32_mod
      → IsBounded s
      → IsBounded (after_all prim cs s) × All IsSized (all_sent prim cs s)
  unfolding after_all all_sent
  after_all-IsBounded [] s typed fits h = (h, tt)
  after_all-IsBounded (c ∷ cs) s typed fits h =
      let (now, sized) = after-IsBounded c s typed.0 (omega arith) h in
      let memory = after-Remembers prim c s typed.0 (omega arith) in
      let (later, rest) =
        after_all-IsBounded cs (after prim c s) typed.1 (omega (arith, memory.by_one)) now in
      (later, All-append IsSized (sent prim c s) (all_sent prim cs (after prim c s)) sized rest)

-- A new session is bounded so, if the hash has 32 bytes.
pub new-IsBounded :
    (prim : Primitives) (keys : KeyPair) (key : PublicKeyBytes) (local_id peer_id : ClientId)
    → ((bytes : Bytes) → length (prim.blake3 bytes) ≡ 32)
    → IsBounded (new prim keys key local_id peer_id)
unfolding new nonce_prefix Maps.get
new-IsBounded prim keys key local_id peer_id hash = record {
  counter = omega arith;
  epoch = omega arith;
  prefix = length-take 16 _ (omega (arith, hash _));
  recent = λ e n h. cc;
}
