-- ===== src/ChatClient/Session/Dialogue/Lines.antt =====
-- A turn with a line, of two clients of session.rs whose sessions are linked.
use e2e_chat_rs.ChatClient.Session.Dialogue.Turns.{
  Ready, Fits, Took, transmit_plain, transmit_answered,
}
use e2e_chat_rs.ChatCore.Crypto.Delivery.{sent_one}
use e2e_chat_rs.Prelude.{refl, Option-cases, Bool-cases, inl, inr, ◌∷◌, ◌∙◌}
use e2e_chat_rs.ChatClient.Session.{chat_text, encrypt_line, count_outbound, true}
use e2e_chat_rs.ChatCore.Crypto.Linked.{Delivered, deliver}
use e2e_chat_rs.ChatCore.Event.{chat, encrypted_message}
use e2e_chat_rs.Prelude.Words.{u64_mod}
use e2e_chat_rs.ChatCore.Crypto.Primitives.{NeverFails, DhAgrees, AeadRoundTrips, PayloadRoundTrips}
use e2e_chat_rs.Prelude.{◌≡◌, ◌+◌, arith, ◌<◌}
use e2e_chat_rs.ChatCore.Crypto.Session.{CryptoSession}
use e2e_chat_rs.ChatClient.Session.Dialogue.{
  transmit_all, take_turn, Primitives, ℕ, some, Draws, ClientSession, List, none, ok, [],
}
use e2e_chat_rs.ChatClient.Session.AutoRekey.{is_due, counted}
use e2e_chat_rs.ChatClient.Session.Chatting.{encrypt_payload_ok, hear_ok}
use e2e_chat_rs.ChatClient.Session.Rotation.{at_session, Rotated, rekey_completes}

module _ (prim : Primitives) {max : ℕ} (law : NeverFails prim max) (agrees : DhAgrees prim)
    (round_trips : AeadRoundTrips prim) (reads_back : PayloadRoundTrips prim) where
  -- A line that is sent alone.
  alone_turn :
      (words : List ℕ) (draws : ℕ → Draws) (c c' d : ClientSession) (a b : CryptoSession)
      → Ready (record { own = c; peer = d }) a b
      → (there : Delivered prim law round_trips reads_back a b (draws 0).message_id (chat words))
      → encrypt_line prim words (draws 0) c
        ≡ (ok (encrypted_message there.envelope ∷ []), at_session c' (sent_one a))
      → Took prim law agrees round_trips reads_back
          (some words)
          draws
          (words ∷ [])
          (record { own = c; peer = d })
          a
          b
  unfolding take_turn transmit_all
  alone_turn words draws c c' d a b r there sends = record {
    q = record { own = at_session c' (sent_one a); peer = at_session d there.receiver };
    a' = sent_one a;
    b' = there.receiver;
    takes = ground (
      arith,
      sends,
      transmit_plain prim (encrypted_message there.envelope) (draws 1) (draws 2)
          (at_session c' (sent_one a)) d (at_session d there.receiver) (some (chat_text words))
          (hear_ok prim law round_trips reads_back d a b (draws 0) (draws 1) words r.peer there),
    );
    ready = record {
      own = refl;
      peer = refl;
      linked = there.linked;
      own_idle = record { pending = r.own_idle.pending; staged = r.own_idle.staged };
      peer_idle = record {
        pending = there.same.pending ∙ r.peer_idle.pending;
        staged = there.same.staged ∙ r.peer_idle.staged;
      };
    };
    counter = omega arith;
    peer_counter = ground (arith, there.same.counter);
  }

  -- A line with a request behind it.
  asking_turn :
      (words : List ℕ) (draws : ℕ → Draws) (c c' d : ClientSession) (a b : CryptoSession)
      → Ready (record { own = c; peer = d }) a b
      → (there : Delivered prim law round_trips reads_back a b (draws 0).message_id (chat words))
      → (done : Rotated prim law agrees round_trips reads_back c'
          (at_session d there.receiver)
          (sent_one a)
          there.receiver
          (draws 0)
          (draws 3)
          (draws 4))
      → encrypt_line prim words (draws 0) c ≡ (
        ok (encrypted_message there.envelope ∷ encrypted_message done.request ∷ []),
        at_session c' done.asked,
      )
      → Took prim law agrees round_trips reads_back
          (some words)
          draws
          (words ∷ [])
          (record { own = c; peer = d })
          a
          b
  unfolding take_turn transmit_all
  asking_turn words draws c c' d a b r there done sends = record {
    q = record {
      own = record (at_session c' done.a') { outbound_since_rekey = 0 };
      peer = at_session d done.b';
    };
    a' = done.a';
    b' = done.b';
    takes = ground (
      arith,
      sends,
      transmit_plain prim (encrypted_message there.envelope) (draws 1) (draws 2)
          (at_session c' done.asked) d (at_session d there.receiver) (some (chat_text words))
          (hear_ok prim law round_trips reads_back d a b (draws 0) (draws 1) words r.peer there),
      transmit_answered prim (encrypted_message done.request) (encrypted_message done.reply)
          (draws 3) (draws 4) (at_session c' done.asked)
          (record (at_session c' done.a') { outbound_since_rekey = 0 })
          (at_session d there.receiver) (at_session d done.b') none _ done.answers done.completes,
    );
    ready = record {
      own = refl;
      peer = refl;
      linked = done.linked;
      own_idle = done.idle.0;
      peer_idle = done.idle.1;
    };
    counter = ground (arith, done.counter);
    peer_counter = ground (arith, done.peer_counter, there.same.counter);
  }

  -- Whether the line of a turn asks for a rekey.
  asks_lem :
      (words : List ℕ) (draws : ℕ → Draws) (c d : ClientSession) (a b : CryptoSession)
      (threshold : ℕ)
      → c.crypto_session ≡ some a
      → c.auto_rekey_after ≡ some threshold
      → is_due c a threshold ≡ true
      → (there : Delivered prim law round_trips reads_back a b (draws 0).message_id (chat words))
      → (done : Rotated prim law agrees round_trips reads_back
          (counted c (sent_one a))
          (at_session d there.receiver)
          (sent_one a)
          there.receiver
          (draws 0)
          (draws 3)
          (draws 4))
      → encrypt_line prim words (draws 0) c ≡ (
        ok (encrypted_message there.envelope ∷ encrypted_message done.request ∷ []),
        at_session (counted c (sent_one a)) done.asked,
      )
  unfolding encrypt_line count_outbound
  asks_lem words draws c d a b threshold h t due there done = ground (
    arith,
    encrypt_payload_ok prim law round_trips reads_back c a b (draws 0) words h there,
    done.starts,
  )

  pub line_turn :
      (words : List ℕ) (draws : ℕ → Draws) (c d : ClientSession) (a b : CryptoSession)
      → Ready (record { own = c; peer = d }) a b
      → Fits prim law agrees round_trips reads_back (some words) draws
      → a.next_outbound_nonce + 2 < u64_mod
      → b.next_outbound_nonce + 2 < u64_mod
      → Took prim law agrees round_trips reads_back
          (some words)
          draws
          (words ∷ [])
          (record { own = c; peer = d })
          a
          b
  unfolding encrypt_line count_outbound
  line_turn words draws c d a b r fits room peer_room =
      let there =
        deliver prim law round_trips reads_back a b (draws 0).message_id (chat words) r.linked
          (fits.line_fits words refl) (omega arith) in
      let sealed =
        encrypt_payload_ok prim law round_trips reads_back c a b (draws 0) words r.own there in
      elim (Option-cases c.auto_rekey_after) [
        | inl manual ↦ alone_turn words draws c c d a b r there (ground (arith, sealed))
        | inr (threshold, t) ↦ elim (Bool-cases (is_due c a threshold)) [
          | inr not_due ↦
              alone_turn words draws c (counted c a) d a b r there (ground (arith, sealed))
          | inl due ↦
              let done =
                rekey_completes prim law agrees round_trips reads_back (counted c (sent_one a))
                  (at_session d there.receiver) (sent_one a) there.receiver (draws 0) (draws 3)
                  (draws 4) refl refl there.linked
                  (record { pending = r.own_idle.pending; staged = r.own_idle.staged })
                  (record {
                    pending = there.same.pending ∙ r.peer_idle.pending;
                    staged = there.same.staged ∙ r.peer_idle.staged;
                  })
                  (record {
                    request_fits = fits.request_fits;
                    reply_fits = fits.reply_fits 3;
                    initiator = omega arith;
                    responder = ground (arith, there.same.counter);
                  }) in
              asking_turn words draws c (counted c (sent_one a)) d a b r there done
                (asks_lem words draws c d a b threshold r.own t due there done)
        ]
      ]
