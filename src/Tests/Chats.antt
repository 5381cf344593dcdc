-- ===== src/Tests/Chats.antt =====
-- Two clients of chat-client that meet, and a line between them.
use e2e_chat_rs.ChatCore.Crypto.Phases.{IsIdle}
use e2e_chat_rs.ChatCore.Crypto.Linked.{Linked}
use e2e_chat_rs.ChatCore.Crypto.Info.{fingerprint}
use e2e_chat_rs.ChatClient.Session.AutoRekey.{Sent, is_due, encrypt_line_rekeys}
use mathlib.Core.Option.{some-injective}
use e2e_chat_rs.Prelude.{refl, List, some, ℕ, ◌∷◌, text, [], ◌≡◌, ok, true, arith}
use e2e_chat_rs.ChatClient.Session.KeyExchange.{Awaits, keyed, exchange_keys}
use e2e_chat_rs.ChatClient.Session.{
  ClientSession, handle_event, encrypt_line, peer_key_event, no_outcome, chat_text,
}
use e2e_chat_rs.ChatCore.Crypto.Session.{new, CryptoSession, generate}
use e2e_chat_rs.ChatClient.Session
use e2e_chat_rs.Tests.Core.{
  alice, bob, alice_secret, bob_secret, alice_session, bob_session, sessions-Linked,
}
use e2e_chat_rs.Tests.Clients.{alice_client, draws}
use e2e_chat_rs.Tests.Toy.{
  toy, toy-NeverFails, toy-DhAgrees, toy-AeadRoundTrips, toy-PayloadRoundTrips,
}

-- Two clients that have just started; alice has pinned the fingerprint of bob.
abbrev pub early_alice : ClientSession
early_alice = record (Session.new toy alice bob alice_secret) {
  expected_peer_fingerprint = some (fingerprint toy (generate toy bob_secret).public_key);
}

abbrev pub early_bob : ClientSession
early_bob = Session.new toy bob alice bob_secret

pub early_alice-Awaits :
    Awaits toy early_alice alice bob alice_secret (generate toy bob_secret).public_key
unfolding Session.new
early_alice-Awaits = record {
  local = refl;
  peer = refl;
  keys = refl;
  waits = refl;
  pinned = λ pin e. some-injective _ _ e;
}

pub early_bob-Awaits :
    Awaits toy early_bob bob alice bob_secret (generate toy alice_secret).public_key
unfolding Session.new
early_bob-Awaits = record {
  local = refl;
  peer = refl;
  keys = refl;
  waits = refl;
  pinned = λ pin e. cc;
}

exchange_keys_example :
    (a : CryptoSession) × (b : CryptoSession) × (handle_event toy
        (peer_key_event early_bob)
        (draws 1 [])
        early_alice
      ≡ (ok no_outcome, keyed early_alice early_bob.keypair.public_key a))
    × (handle_event toy (peer_key_event early_alice) (draws 1 []) early_bob
        ≡ (ok no_outcome, keyed early_bob early_alice.keypair.public_key b))
    × Linked a b
    × IsIdle a
    × IsIdle b
exchange_keys_example =
    exchange_keys toy toy-DhAgrees early_alice early_bob alice bob alice_secret bob_secret
      (draws 1 []) (draws 1 []) early_alice-Awaits early_bob-Awaits

abbrev greeting : List ℕ
greeting = text "hi"

-- The third line since the last rekey is the one that asks for another.
abbrev eager_alice : ClientSession
eager_alice = record alice_client { auto_rekey_after = some 3 }

encrypt_line_rekeys_example :
    Sent toy
      (toy-NeverFails 1000)
      toy-AeadRoundTrips
      toy-PayloadRoundTrips
      eager_alice
      alice_session
      bob_session
      (draws 1 (5 ∷ []))
      greeting
      3
unfolding toy toy-NeverFails new
encrypt_line_rekeys_example =
    encrypt_line_rekeys toy (toy-NeverFails 1000) toy-AeadRoundTrips toy-PayloadRoundTrips
      eager_alice alice_session bob_session (draws 1 (5 ∷ [])) greeting 3 refl refl
      sessions-Linked.0 (omega arith) (omega arith) (omega arith)

-- The third line is indeed due.
third_is_due : is_due eager_alice alice_session 3 ≡ true
unfolding new
third_is_due = refl
