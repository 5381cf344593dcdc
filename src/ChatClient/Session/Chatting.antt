-- ===== src/ChatClient/Session/Chatting.antt =====
-- A line from one client of session.rs to the other.
use e2e_chat_rs.ChatCore.Crypto.Cipher.{encrypt, next_nonce}
use e2e_chat_rs.Prelude.{ℕ, ◌+◌, ◌≤◌, ◌<◌, ◌≡◌, some, none, List, [], ◌∷◌, ok, arith, length}
use e2e_chat_rs.Prelude.Words.{u64_mod}
use e2e_chat_rs.ChatCore.Event.{EncryptedEnvelope, encrypted_message, chat}
use e2e_chat_rs.ChatCore.Crypto.Primitives.{
  Primitives, NeverFails, AeadRoundTrips, PayloadRoundTrips,
}
use e2e_chat_rs.ChatCore.Crypto.Session.{CryptoSession}
use e2e_chat_rs.ChatCore.Crypto.Rekey
use e2e_chat_rs.ChatCore.Crypto.Delivery.{sent_one}
use e2e_chat_rs.ChatCore.Crypto.Linked.{Linked, SameButMarks, Delivered, deliver}
use e2e_chat_rs.ChatClient.Session.{
  ClientSession, Draws, chat_text, encrypt_line, encrypt_payload, handle_event,
  handle_encrypted_message, on_payload, count_outbound, MessageId, SessionPayload,
}
use e2e_chat_rs.ChatClient.Session.Rotation.{at_session, with_session_ok}

-- Whom a sealed payload is from, and for.
addresses_lem :
    (prim : Primitives) (id : MessageId) (payload : SessionPayload) (a a' : CryptoSession)
    (e : EncryptedEnvelope)
    → Rekey.encrypt_payload prim id payload a ≡ (ok e, a')
    → (e.sender ≡ a.local_id) × (e.recipient ≡ a.peer_id)
unfolding Rekey.encrypt_payload encrypt next_nonce
addresses_lem prim id payload a a' e h = ground arith

module _ (prim : Primitives) {max : ℕ} (law : NeverFails prim max)
    (round_trips : AeadRoundTrips prim) (reads_back : PayloadRoundTrips prim) where
  pub encrypt_payload_ok :
      (c : ClientSession) (a : CryptoSession) (b : CryptoSession) (x : Draws) (line : List ℕ)
      → c.crypto_session ≡ some a
      → (there : Delivered prim law round_trips reads_back a b x.message_id (chat line))
      → encrypt_payload prim x.message_id (chat line) c
        ≡ (ok (encrypted_message there.envelope), at_session c (sent_one a))
  unfolding encrypt_payload
  encrypt_payload_ok c a b x line h there = ground (
    arith,
    with_session_ok (Rekey.encrypt_payload prim x.message_id (chat line)) c a (sent_one a) h
        there.sent,
  )

  pub hear_ok :
      (d : ClientSession) (a b : CryptoSession) (x y : Draws) (line : List ℕ)
      → d.crypto_session ≡ some b
      → (there : Delivered prim law round_trips reads_back a b x.message_id (chat line))
      → handle_event prim (encrypted_message there.envelope) y d ≡ (
        ok (record { event = some (chat_text line); reply_event = none }),
        at_session d there.receiver,
      )
  unfolding handle_event handle_encrypted_message on_payload
  hear_ok d a b x y line h there = ground (
    arith,
    with_session_ok (Rekey.decrypt_payload prim there.envelope) d b there.receiver h there.received,
  )

  -- A line that one of two clients with linked sessions seals is opened by the other to the same
  -- line, which changes nothing there but the marked nonces; the envelope names the sender and the
  -- recipient, and the sessions are linked afterwards. The sender has no automatic rekey, the
  -- libraries never fail and are correct, the line is short enough for the cipher, and the counter
  -- has room.
  pub line_arrives :
      (c d : ClientSession) (a b : CryptoSession) (x y : Draws) (line : List ℕ)
      → c.crypto_session ≡ some a
      → d.crypto_session ≡ some b
      → c.auto_rekey_after ≡ none
      → Linked a b
      → length (law.payload (chat line)).0 ≤ max
      → a.next_outbound_nonce + 1 < u64_mod
      → (envelope : EncryptedEnvelope) × (b' : CryptoSession) × (encrypt_line prim line x c
          ≡ (ok (encrypted_message envelope ∷ []), at_session c (sent_one a)))
        × (handle_event prim (encrypted_message envelope) y d
            ≡ (ok (record { event = some (chat_text line); reply_event = none }), at_session d b'))
        × SameButMarks b b'
        × Linked (sent_one a) b'
        × (envelope.sender ≡ a.local_id)
        × (envelope.recipient ≡ a.peer_id)
  unfolding encrypt_line count_outbound
  line_arrives c d a b x y line hc hd manual l short room =
      let there =
        deliver prim law round_trips reads_back a b x.message_id (chat line) l short room in
      (
        there.envelope,
        there.receiver,
        ground (arith, encrypt_payload_ok c a b x line hc there),
        hear_ok d a b x y line hd there,
        there.same,
        there.linked,
        (addresses_lem prim x.message_id (chat line) a (sent_one a) there.envelope there.sent).0,
        (addresses_lem prim x.message_id (chat line) a (sent_one a) there.envelope there.sent).1,
      )
