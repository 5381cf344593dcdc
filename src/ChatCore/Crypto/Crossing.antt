-- ===== src/ChatCore/Crypto/Crossing.antt =====
-- Two rekey requests that cross.
use e2e_chat_rs.Prelude.{ℕ, ◌+◌, ◌≤◌, ◌<◌, ◌≡◌, some, ok, err, arith, length, ◌∙◌}
use e2e_chat_rs.Prelude.Words.{u64_mod}
use e2e_chat_rs.ChatCore.Types.{MessageId, RekeyId}
use e2e_chat_rs.ChatCore.Event.{EncryptedEnvelope}
use e2e_chat_rs.ChatCore.Crypto.Primitives.{
  Bytes, Primitives, NeverFails, AeadRoundTrips, PayloadRoundTrips,
}
use e2e_chat_rs.ChatCore.Crypto.Session.{CryptoSession, PendingRekey, rekey_already_in_progress}
use e2e_chat_rs.ChatCore.Crypto.Rekey.{
  encrypt_payload, decrypt_payload, start_rekey, handle_session_payload,
}
use e2e_chat_rs.ChatCore.Crypto.Delivery.{sent_one}
use e2e_chat_rs.ChatCore.Crypto.Linked.{Linked, deliver}
use e2e_chat_rs.ChatCore.Crypto.Phases.{request_of}

module _ (prim : Primitives) {max : ℕ} (law : NeverFails prim max)
    (round_trips : AeadRoundTrips prim) (reads_back : PayloadRoundTrips prim) where
  -- The request of `a` at `b`, which has its own pending.
  pub record Refused (a b : CryptoSession) (id : RekeyId) (ea : Bytes) (m : MessageId)
      (own : PendingRekey) : Type 0 where
    pub request : EncryptedEnvelope
    pub receiver : CryptoSession
    pub sent : encrypt_payload prim m (request_of prim id ea) a ≡ (ok request, sent_one a)
    pub received : decrypt_payload prim request b ≡ (ok (request_of prim id ea), receiver)
    pub refused :
        (drawn : Bytes)
        → handle_session_payload prim (request_of prim id ea) drawn receiver
          ≡ (err rekey_already_in_progress, receiver)
    pub stuck :
        (next_id : RekeyId) (drawn : Bytes)
        → start_rekey prim next_id drawn receiver ≡ (err rekey_already_in_progress, receiver)
    pub pending : receiver.pending_rekey ≡ some own
    pub epoch : receiver.epoch ≡ b.epoch
    pub linked : Linked (sent_one a) receiver

  -- A rekey request of one of two linked sessions that reaches the other while that has a request
  -- of its own pending is decrypted, and refused because a rekey is in progress: the other keeps
  -- its own request pending and its epoch, refuses to start another rekey, and the two sessions
  -- are still linked. The libraries never fail and are correct, and there is room for the request.
  pub request_crosses :
      (a b : CryptoSession) (id : RekeyId) (ea : Bytes) (m : MessageId) (own : PendingRekey)
      → Linked a b
      → b.pending_rekey ≡ some own
      → length (law.payload (request_of prim id ea)).0 ≤ max
      → a.next_outbound_nonce + 1 < u64_mod
      → Refused a b id ea m own
  unfolding start_rekey handle_session_payload
  request_crosses a b id ea m own l pb short room =
      let there =
        deliver prim law round_trips reads_back a b m (request_of prim id ea) l short room in
      let still : there.receiver.pending_rekey ≡ some own = there.same.pending ∙ pb in
      record {
        request = there.envelope;
        receiver = there.receiver;
        sent = there.sent;
        received = there.received;
        refused = λ drawn. ground arith;
        stuck = λ next_id drawn. ground arith;
        pending = still;
        epoch = there.same.epoch;
        linked = there.linked;
      }
