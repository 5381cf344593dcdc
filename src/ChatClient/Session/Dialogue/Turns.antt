-- ===== src/ChatClient/Session/Dialogue/Turns.antt =====
-- A turn of two clients of session.rs whose sessions are linked.
use e2e_chat_rs.Prelude.{refl}
use e2e_chat_rs.ChatCore.Crypto.Linked.{Linked}
use e2e_chat_rs.ChatCore.Event.{chat, encrypted_message}
use e2e_chat_rs.Prelude.Words.{u64_mod}
use e2e_chat_rs.ChatCore.Crypto.Phases.{IsIdle, request_of, response_of}
use e2e_chat_rs.ChatCore.Crypto.Linked.{Linked}
use e2e_chat_rs.ChatCore.Crypto.Primitives.{NeverFails, DhAgrees, AeadRoundTrips, PayloadRoundTrips}
use e2e_chat_rs.Prelude.{◌≡◌, length, ◌≤◌, ◌+◌, arith, ◌<◌}
use e2e_chat_rs.ChatCore.Crypto.Session.{CryptoSession}
use e2e_chat_rs.ChatClient.Session.Dialogue.{
  Pair, shown, transmit, transmit_all, take_turn, Primitives, WireEvent, ℕ, some, Draws,
  ClientSession, Option, InboundEvent, handle_event, InboundOutcome, List, none, ok, [],
}
use e2e_chat_rs.ChatClient.Session.Rotation.{at_session, rekey_completes}

-- Both clients have sessions, which are linked, with no rekey under way.
pub record Ready (p : Pair) (a b : CryptoSession) : Type 0 where
  pub own : p.own.crypto_session ≡ some a
  pub peer : p.peer.crypto_session ≡ some b
  pub linked : Linked a b
  pub own_idle : IsIdle a
  pub peer_idle : IsIdle b

module _ (prim : Primitives) where
  pub transmit_plain :
      (event : WireEvent) (y z : Draws) (c d d' : ClientSession) (e : Option InboundEvent)
      → handle_event prim event y d ≡ (ok (record { event = e; reply_event = none }), d')
      → transmit prim event y z (record { own = c; peer = d })
        ≡ some (shown e, record { own = c; peer = d' })
  unfolding transmit
  transmit_plain event y z c d d' e h = ground (arith, h)

  pub transmit_answered :
      (event reply : WireEvent) (y z : Draws) (c c' d d' : ClientSession) (e : Option InboundEvent)
      (outcome : InboundOutcome)
      → handle_event prim event y d ≡ (ok (record { event = e; reply_event = some reply }), d')
      → handle_event prim reply z c ≡ (ok outcome, c')
      → transmit prim event y z (record { own = c; peer = d })
        ≡ some (shown e, record { own = c'; peer = d' })
  unfolding transmit
  transmit_answered event reply y z c c' d d' e outcome h k = ground (arith, h, k)

module _ (prim : Primitives) {max : ℕ} (law : NeverFails prim max) (agrees : DhAgrees prim)
    (round_trips : AeadRoundTrips prim) (reads_back : PayloadRoundTrips prim) where
  -- Room in the cipher for what a turn may send.
  pub record Fits (line : Option (List ℕ)) (draws : ℕ → Draws) : Type 0 where
    pub line_fits : (words : List ℕ) → line ≡ some words → length (law.payload (chat words)).0 ≤ max
    pub request_fits :
        length (law.payload (request_of prim (draws 0).rekey_id (draws 0).ephemeral_secret)).0 ≤ max
    pub reply_fits :
        (k : ℕ)
        → length (law.payload (response_of prim (draws 0).rekey_id (draws k).ephemeral_secret)).0
          ≤ max

  -- A turn that shows `lines` to the peer and leaves the clients ready.
  pub record Took (line : Option (List ℕ)) (draws : ℕ → Draws) (lines : List (List ℕ)) (p : Pair)
      (a b : CryptoSession) : Type 0 where
    pub q : Pair
    pub a' : CryptoSession
    pub b' : CryptoSession
    pub takes : take_turn prim line draws p ≡ some (lines, q)
    pub ready : Ready q a' b'
    pub counter : a'.next_outbound_nonce ≤ a.next_outbound_nonce + 2
    pub peer_counter : b'.next_outbound_nonce ≤ b.next_outbound_nonce + 2

  pub rekey_turn :
      (draws : ℕ → Draws) (c d : ClientSession) (a b : CryptoSession)
      → Ready (record { own = c; peer = d }) a b
      → Fits none draws
      → a.next_outbound_nonce + 2 < u64_mod
      → b.next_outbound_nonce + 2 < u64_mod
      → Took none draws [] (record { own = c; peer = d }) a b
  unfolding take_turn transmit_all
  rekey_turn draws c d a b r fits room peer_room =
      let done =
        rekey_completes prim law agrees round_trips reads_back c d a b (draws 0) (draws 1) (draws 2)
          r.own r.peer r.linked r.own_idle r.peer_idle
          (record {
            request_fits = fits.request_fits;
            reply_fits = fits.reply_fits 1;
            initiator = omega arith;
            responder = omega arith;
          }) in
      record {
        q = record {
          own = record (at_session c done.a') { outbound_since_rekey = 0 };
          peer = at_session d done.b';
        };
        a' = done.a';
        b' = done.b';
        takes = ground (
          arith,
          done.starts,
          transmit_answered prim (encrypted_message done.request) (encrypted_message done.reply)
              (draws 1) (draws 2) (at_session c done.asked)
              (record (at_session c done.a') { outbound_since_rekey = 0 }) d (at_session d done.b')
              none _ done.answers done.completes,
        );
        ready = record {
          own = refl;
          peer = refl;
          linked = done.linked;
          own_idle = done.idle.0;
          peer_idle = done.idle.1;
        };
        counter = ground (arith, done.counter);
        peer_counter = ground (arith, done.peer_counter);
      }
