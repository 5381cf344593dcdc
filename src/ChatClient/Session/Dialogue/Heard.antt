-- ===== src/ChatClient/Session/Dialogue/Heard.antt =====
-- Whole dialogues of two clients of session.rs.
use e2e_chat_rs.ChatCore.Crypto.Agreement.{new-Linked}
use e2e_chat_rs.ChatClient.Session.{peer_key_event}
use e2e_chat_rs.ChatClient.Session.KeyExchange.{Awaits, take_key, keyed}
use e2e_chat_rs.ChatCore.Types.{ClientId}
use e2e_chat_rs.ChatCore.Crypto.Session.{new, generate}
use e2e_chat_rs.Prelude.{none, some, [], ◌∷◌, false}
use e2e_chat_rs.Prelude.Words.{u64_mod}
use e2e_chat_rs.ChatCore.Crypto.Primitives.{
  NeverFails, DhAgrees, AeadRoundTrips, PayloadRoundTrips, Bytes,
}
use e2e_chat_rs.Prelude.{ℕ, ◌≡◌, refl, inl, inr, All, Bool-cases, length, ◌∷◌, ◌+◌, ◌<◌, ◌*◌, arith}
use e2e_chat_rs.ChatCore.Crypto.Session.{CryptoSession}
use e2e_chat_rs.ChatCore.Crypto.Linked.{Linked-sym}
use e2e_chat_rs.ChatClient.Session.Dialogue.{
  Turn, Pair, flipped, talk, said, Option, false, Primitives, List, [], some, Draws, ClientSession,
  handle_event,
}
use e2e_chat_rs.ChatClient.Session.Dialogue.Lines.{line_turn}
use e2e_chat_rs.ChatClient.Session.Dialogue.Turns.{Ready, Fits, Took, rekey_turn}

abbrev lines_of : Option (List ℕ) → List (List ℕ)
lines_of none = []
lines_of (some words) = words ∷ []

Ready-flip : (p : Pair) (a b : CryptoSession) → Ready p a b → Ready (flipped false p) b a
Ready-flip p a b r = record {
  own = r.peer;
  peer = r.own;
  linked = Linked-sym a b r.linked;
  own_idle = r.peer_idle;
  peer_idle = r.own_idle;
}

module _ (prim : Primitives) {max : ℕ} (law : NeverFails prim max) (agrees : DhAgrees prim)
    (round_trips : AeadRoundTrips prim) (reads_back : PayloadRoundTrips prim) where
  any_turn :
      (line : Option (List ℕ)) (draws : ℕ → Draws) (p : Pair) (a b : CryptoSession)
      → Ready p a b
      → Fits prim law agrees round_trips reads_back line draws
      → a.next_outbound_nonce + 2 < u64_mod
      → b.next_outbound_nonce + 2 < u64_mod
      → Took prim law agrees round_trips reads_back line draws (lines_of line) p a b
  any_turn none draws p a b r fits room peer_room =
      rekey_turn prim law agrees round_trips reads_back draws p.own p.peer a b r fits room peer_room
  any_turn (some words) draws p a b r fits room peer_room =
      line_turn prim law agrees round_trips reads_back words draws p.own p.peer a b r fits room
        peer_room

  -- In any dialogue of two clients whose sessions are linked and have no rekey under way, in which
  -- each, in any order, types lines or asks for a rekey, with or without an automatic rekey on
  -- either side, nothing fails, and the lines that are shown are those that were said, in order
  -- and each once; afterwards the sessions are linked again with no rekey under way. Each turn is
  -- heard before the next, the libraries never fail and are correct, every message fits the
  -- cipher, and the counters have room for two messages for each turn.
  pub dialogue_arrives :
      (ts : List Turn) (p : Pair) (a b : CryptoSession)
      → Ready p a b
      → All (λ t. Fits prim law agrees round_trips reads_back t.line t.draws) ts
      → a.next_outbound_nonce + 2 * length ts < u64_mod
      → b.next_outbound_nonce + 2 * length ts < u64_mod
      → (q : Pair) × (a' : CryptoSession) × (b' : CryptoSession) × (talk prim ts p
          ≡ some (said ts, q))
        × Ready q a' b'
  unfolding talk said
  dialogue_arrives [] p a b r fits room peer_room = (p, a, b, refl, r)
  dialogue_arrives (t ∷ ts) p a b r (fits, rest_fits) room peer_room =
      elim (Bool-cases t.by_first) [
        | inl first ↦
            let took = any_turn t.line t.draws p a b r fits (omega arith) (omega arith) in
            let (q, a', b', talks, ready) =
              dialogue_arrives ts took.q took.a' took.b' took.ready rest_fits
                (ground (arith, took.counter)) (ground (arith, took.peer_counter)) in
            (q, a', b', ground (arith, took.takes, talks), ready)
        | inr second ↦
            let took =
              any_turn t.line t.draws (flipped false p) b a (Ready-flip p a b r) fits (omega arith)
                (omega arith) in
            let (q, a', b', talks, ready) =
              dialogue_arrives ts (flipped false took.q) took.b' took.a'
                (Ready-flip took.q took.a' took.b' took.ready) rest_fits
                (ground (arith, took.peer_counter)) (ground (arith, took.counter)) in
            (q, a', b', ground (arith, took.takes, talks), ready)
      ]

  -- Two clients that wait for the key of each other, each with no pinned fingerprint or with that
  -- of the other, take the announced keys, and then in any dialogue show all lines that are said,
  -- in order and each once, as long as it has fewer than 2^63 turns; afterwards their sessions are
  -- linked with no rekey under way. Each turn is heard before the next, the libraries never fail
  -- and are correct, and every message fits the cipher.
  pub meeting :
      (c d : ClientSession) (alice bob : ClientId) (ka kb : Bytes) (x y : Draws) (ts : List Turn)
      → Awaits prim c alice bob ka (generate prim kb).public_key
      → Awaits prim d bob alice kb (generate prim ka).public_key
      → All (λ t. Fits prim law agrees round_trips reads_back t.line t.draws) ts
      → 2 * length ts < u64_mod
      → (q : Pair) × (a : CryptoSession) × (b : CryptoSession) × (talk prim ts (record {
        own = (handle_event prim (peer_key_event d) x c).1;
        peer = (handle_event prim (peer_key_event c) y d).1;
      })
          ≡ some (said ts, q))
        × Ready q a b
  unfolding new
  meeting c d alice bob ka kb x y ts wc wd fits room =
      let a = new prim (generate prim ka) (generate prim kb).public_key alice bob in
      let b = new prim (generate prim kb) (generate prim ka).public_key bob alice in
      let (linked, own_idle, peer_idle) = new-Linked prim agrees ka kb alice bob in
      rw (take_key prim c d alice bob ka kb x wc wd, take_key prim d c bob alice kb ka y wd wc)
        (dialogue_arrives ts
          (record {
            own = keyed c (generate prim kb).public_key a;
            peer = keyed d (generate prim ka).public_key b;
          })
          a b
          (record {
            own = refl;
            peer = refl;
            linked = linked;
            own_idle = own_idle;
            peer_idle = peer_idle;
          })
          fits (omega arith) (omega arith))
