-- ===== src/Tests/Dialogues.antt =====
-- A dialogue of two clients of chat-client, with a rekey that is asked for and one that is due.
use e2e_chat_rs.ChatClient.Session.{ClientSession, handle_event, peer_key_event}
use e2e_chat_rs.ChatCore.Crypto.Session.{new, CryptoSession}
use e2e_chat_rs.Prelude.{
  refl, arith, ℕ, Bool, true, false, none, some, List, [], ◌∷◌, text, ◌≡◌, ◌<◌, length, All,
}
use e2e_chat_rs.ChatClient.Session.Dialogue.{Turn, Pair, talk, said}
use e2e_chat_rs.ChatClient.Session.Dialogue.Turns.{Ready, Fits}
use e2e_chat_rs.ChatClient.Session.Dialogue.Heard.{dialogue_arrives, meeting}
use e2e_chat_rs.Tests.Core.{
  alice, bob, alice_secret, bob_secret, alice_session, bob_session, sessions-Linked,
}
use e2e_chat_rs.Tests.Clients.{alice_client, bob_client, draws}
use e2e_chat_rs.Tests.Chats.{early_alice, early_bob, early_alice-Awaits, early_bob-Awaits}
use e2e_chat_rs.Tests.Toy.{
  toy, toy-NeverFails, toy-DhAgrees, toy-AeadRoundTrips, toy-PayloadRoundTrips,
}

abbrev says : Bool → List ℕ → Turn
says by_first line = record { by_first = by_first; line = some line; draws = λ k. draws k (8 ∷ []) }

abbrev rekeys : Bool → Turn
rekeys by_first = record { by_first = by_first; line = none; draws = λ k. draws k (9 ∷ []) }

abbrev turns : List Turn
turns = says true (text "hi") ∷ says false (text "yo") ∷ rekeys true ∷ says true (text "bye") ∷ []

abbrev spoken : List (Bool × List ℕ)
spoken = (true, text "hi") ∷ (false, text "yo") ∷ (true, text "bye") ∷ []

turns_say : said turns ≡ spoken
unfolding said
turns_say = refl

-- A client that asks for a rekey of itself after each line.
abbrev eager : ClientSession → ClientSession
eager c = record c { auto_rekey_after = some 1 }

line-Fits :
    (by_first : Bool) (line : List ℕ)
    → length line < 900
    → Fits toy
        (toy-NeverFails 1000)
        toy-DhAgrees
        toy-AeadRoundTrips
        toy-PayloadRoundTrips
        (says by_first line).line
        (says by_first line).draws
unfolding toy toy-NeverFails
line-Fits by_first line short = record {
  line_fits = λ words e. ground arith;
  request_fits = omega arith;
  reply_fits = λ k. omega arith;
}

rekey-Fits :
    (by_first : Bool)
    → Fits toy
        (toy-NeverFails 1000)
        toy-DhAgrees
        toy-AeadRoundTrips
        toy-PayloadRoundTrips
        (rekeys by_first).line
        (rekeys by_first).draws
unfolding toy toy-NeverFails
rekey-Fits by_first = record {
  line_fits = λ words e. cc;
  request_fits = omega arith;
  reply_fits = λ k. omega arith;
}

turns-Fits :
    All
      (λ t.
        Fits toy
          (toy-NeverFails 1000)
          toy-DhAgrees
          toy-AeadRoundTrips
          toy-PayloadRoundTrips
          t.line
          t.draws)
      turns
turns-Fits = (
  line-Fits true (text "hi") (omega arith),
  (
    line-Fits false (text "yo") (omega arith),
    (rekey-Fits true, (line-Fits true (text "bye") (omega arith), tt)),
  ),
)

dialogue_arrives_example :
    (q : Pair) × (a : CryptoSession) × (b : CryptoSession) × (talk toy turns
        (record { own = eager alice_client; peer = bob_client })
      ≡ some (said turns, q))
    × Ready q a b
unfolding new
dialogue_arrives_example =
    dialogue_arrives toy (toy-NeverFails 1000) toy-DhAgrees toy-AeadRoundTrips toy-PayloadRoundTrips
      turns (record { own = eager alice_client; peer = bob_client }) alice_session bob_session
      (record {
        own = refl;
        peer = refl;
        linked = sessions-Linked.0;
        own_idle = sessions-Linked.1;
        peer_idle = sessions-Linked.2;
      })
      turns-Fits (omega arith) (omega arith)

meeting_example :
    (q : Pair) × (a : CryptoSession) × (b : CryptoSession) × (talk toy turns (record {
      own = (handle_event toy (peer_key_event early_bob) (draws 1 []) early_alice).1;
      peer = (handle_event toy (peer_key_event early_alice) (draws 2 []) early_bob).1;
    })
      ≡ some (said turns, q))
    × Ready q a b
meeting_example =
    meeting toy (toy-NeverFails 1000) toy-DhAgrees toy-AeadRoundTrips toy-PayloadRoundTrips
      early_alice early_bob alice bob alice_secret bob_secret (draws 1 []) (draws 2 []) turns
      early_alice-Awaits early_bob-Awaits turns-Fits (omega arith)
