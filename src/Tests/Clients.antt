-- ===== src/Tests/Clients.antt =====
-- The theorems of chat-client at concrete clients.
use e2e_chat_rs.ChatClient.Texts.{to_lowercase, trim, is_whitespace, trim_start}
use e2e_chat_rs.ChatClient.Main.Fingerprint.{normalize_fingerprint-fingerprint}
use e2e_chat_rs.ChatCore.Crypto.Info.{fingerprint, hex}
use e2e_chat_rs.ChatClient.Main.{normalize_fingerprint}
use e2e_chat_rs.ChatCore.Types.{PublicKeyBytes, ClientId-discrete}
use e2e_chat_rs.ChatClient.Session.PeerKey.{IsSound}
use e2e_chat_rs.Prelude.{
  ℕ, refl, none, some, [], ◌∷◌, ◌+◌, List, text, ◌≡◌, replicate, ok, arith, bytes_discrete,
}
use e2e_chat_rs.ChatCore.Crypto.Primitives.{Bytes}
use e2e_chat_rs.ChatCore.Crypto.Session.{generate}
use e2e_chat_rs.ChatCore.Event.{peer_key}
use e2e_chat_rs.ChatClient.Session
use e2e_chat_rs.ChatClient.Session.Pinning.{
  Use, hears, after, after_all, peer_key_stays, expect_peer_fingerprint-IsSound,
}
use e2e_chat_rs.ChatClient.Session.{
  ClientSession, Draws, expect_peer_fingerprint, handle_event, accept_peer_key,
}
use e2e_chat_rs.ChatClient.Session.Rotation.{Rotated, rekey_completes}
use e2e_chat_rs.Tests.Core.{
  alice, bob, alice_secret, bob_secret, alice_session, bob_session, message, first_rekey,
  sessions-Linked, room_for_rekey,
}
use e2e_chat_rs.Tests.Toy.{
  toy, toy-NeverFails, toy-DhAgrees, toy-AeadRoundTrips, toy-PayloadRoundTrips,
}

abbrev pub alice_client : ClientSession
alice_client = record {
  local_id = alice;
  peer_id = bob;
  keypair = generate toy alice_secret;
  peer_public_key = some ((generate toy bob_secret).public_key);
  crypto_session = some alice_session;
  expected_peer_fingerprint = none;
  auto_rekey_after = none;
  outbound_since_rekey = 2;
}

abbrev pub bob_client : ClientSession
bob_client = record {
  local_id = bob;
  peer_id = alice;
  keypair = generate toy bob_secret;
  peer_public_key = some ((generate toy alice_secret).public_key);
  crypto_session = some bob_session;
  expected_peer_fingerprint = none;
  auto_rekey_after = some 5;
  outbound_since_rekey = 0;
}

abbrev pub draws : ℕ → Bytes → Draws
draws n secret = record {
  message_id = message n;
  rekey_id = first_rekey;
  ephemeral_secret = secret;
  rekey_message_id = message (n + 1);
}

rekey_completes_example :
    Rotated toy
      (toy-NeverFails 1000)
      toy-DhAgrees
      toy-AeadRoundTrips
      toy-PayloadRoundTrips
      alice_client
      bob_client
      alice_session
      bob_session
      (draws 1 (5 ∷ []))
      (draws 3 (6 ∷ []))
      (draws 5 (8 ∷ []))
rekey_completes_example =
    rekey_completes toy (toy-NeverFails 1000) toy-DhAgrees toy-AeadRoundTrips toy-PayloadRoundTrips
      alice_client bob_client alice_session bob_session (draws 1 (5 ∷ [])) (draws 3 (6 ∷ []))
      (draws 5 (8 ∷ [])) refl refl sessions-Linked.0 sessions-Linked.1 sessions-Linked.2
      room_for_rekey

-- A client that pins the fingerprint of bob's key, and hears the key of another first.
abbrev pinned_client : ClientSession
pinned_client =
    expect_peer_fingerprint (λ c. c ∷ []) (text "04") (Session.new toy alice bob alice_secret)

abbrev heard : List Use
heard =
    hears (peer_key bob alice (record { bytes = 5 ∷ [] })) (draws 1 [])
    ∷ hears (peer_key bob alice (record { bytes = 4 ∷ [] })) (draws 1 [])
    ∷ []

takes_pinned_key :
    (after_all toy heard pinned_client).peer_public_key ≡ some (record { bytes = 4 ∷ [] })
unfolding after_all after handle_event accept_peer_key Session.new ClientId-discrete
    expect_peer_fingerprint fingerprint toy to_lowercase trim is_whitespace trim_start hex
    bytes_discrete
takes_pinned_key = refl

peer_key_stays_example :
    IsSound toy (after_all toy heard pinned_client)
    × ((key : PublicKeyBytes)
        → pinned_client.peer_public_key ≡ some key
        → (after_all toy heard pinned_client).peer_public_key ≡ some key)
peer_key_stays_example =
    peer_key_stays toy heard pinned_client
      (expect_peer_fingerprint-IsSound toy (λ c. c ∷ []) (text "04") alice bob alice_secret)

-- Twice sixteen bytes, which stand for a hash.
abbrev some_key : PublicKeyBytes
some_key = record { bytes = replicate 32 0xa7 }

normalize_fingerprint-fingerprint_example :
    normalize_fingerprint (λ c. c ∷ []) (fingerprint toy some_key) ≡ ok (fingerprint toy some_key)
unfolding toy
normalize_fingerprint-fingerprint_example =
    normalize_fingerprint-fingerprint toy (λ c. c ∷ []) some_key refl (ground arith)
