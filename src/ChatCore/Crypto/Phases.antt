-- ===== src/ChatCore/Crypto/Phases.antt =====
-- The states that a session goes through in a rekey handshake, and what they keep of a link.
use e2e_chat_rs.Prelude.{ℕ, ◌≡◌, refl, false, Option, some, none, arith, leb, ℕ_eq}
use e2e_chat_rs.Prelude.Words.{add_u32}
use e2e_chat_rs.Prelude.Maps
use e2e_chat_rs.ChatCore.Types.{NonceBytes, RekeyId}
use e2e_chat_rs.ChatCore.Event.{SessionPayload, rekey_request, rekey_response}
use e2e_chat_rs.ChatCore.Crypto.Primitives.{Bytes, Primitives}
use e2e_chat_rs.ChatCore.Crypto.Session.{CryptoSession, PendingRekey}
use e2e_chat_rs.ChatCore.Crypto.Rekey.{apply_next_master}
use e2e_chat_rs.ChatCore.Crypto.Marks.{seen}
use e2e_chat_rs.ChatCore.Crypto.Linked.{Linked}

-- No handshake is under way.
pub record IsIdle (s : CryptoSession) : Type 0 where
  pub pending : s.pending_rekey ≡ none
  pub staged : s.staged_master ≡ none

apply_next_master-unseen :
    (next : Bytes) (s : CryptoSession) (e : ℕ) (n : NonceBytes)
    → seen s e n ≡ false
    → seen (apply_next_master next s) e n ≡ false
unfolding apply_next_master
apply_next_master-unseen next s e n h =
    ground (arith, Maps.get-retain s.inbound_nonces (λ g. leb (add_u32 s.epoch 1) (add_u32 g 1)) e)

-- The initiator once it has its answer, and the responder once it has committed.
abbrev pub completed : Bytes → CryptoSession → CryptoSession
completed next a = record (apply_next_master next a) { pending_rekey = none }

abbrev pub committed : Bytes → CryptoSession → CryptoSession
committed next b = apply_next_master next (record b { staged_master = none })

pub rotated-Linked :
    (next : Bytes) (a b : CryptoSession) → Linked a b → Linked (completed next a) (committed next b)
unfolding apply_next_master
rotated-Linked next a b l = record {
  sync = record {
    master = refl;
    info = l.sync.info;
    epoch = ground (arith, l.sync.epoch);
    to_peer = l.sync.to_peer;
    from_peer = l.sync.from_peer;
  };
  forth = λ e n later fits. apply_next_master-unseen next b e _ (l.forth e n later fits);
  back = λ e n later fits. apply_next_master-unseen next a e _ (l.back e n later fits);
}

-- A session whose handshake state alone differs is linked as before.
abbrev pub with_handshake : CryptoSession → Option PendingRekey → Option Bytes → CryptoSession
with_handshake s pending staged = record s { pending_rekey = pending; staged_master = staged }

pub with_handshake-Linked :
    (a b : CryptoSession) (pa pb : Option PendingRekey) (sa sb : Option Bytes)
    → Linked a b
    → Linked (with_handshake a pa sa) (with_handshake b pb sb)
with_handshake-Linked a b pa pb sa sb l = record {
  sync = record {
    master = l.sync.master;
    info = l.sync.info;
    epoch = l.sync.epoch;
    to_peer = l.sync.to_peer;
    from_peer = l.sync.from_peer;
  };
  forth = l.forth;
  back = l.back;
}

abbrev pub started : CryptoSession → RekeyId → Bytes → CryptoSession
started a id secret = record a {
  pending_rekey = some (record { rekey_id = id; ephemeral_secret = secret });
}

abbrev pub staged : CryptoSession → Bytes → CryptoSession
staged b next = record b { staged_master = some next }

abbrev pub request_of : Primitives → RekeyId → Bytes → SessionPayload
request_of prim id secret = rekey_request id (record { bytes = prim.x25519_public secret })

abbrev pub response_of : Primitives → RekeyId → Bytes → SessionPayload
response_of prim id secret = rekey_response id (record { bytes = prim.x25519_public secret })
