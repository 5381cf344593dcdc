-- ===== src/Tests/Programs.antt =====
-- Two client programs over sockets that keep what is sent.
use e2e_chat_rs.ChatCore.Crypto.Linked.{Linked}
use e2e_chat_rs.ChatCore.Crypto.Session.{CryptoSession}
use e2e_chat_rs.ChatClient.Session.{ClientSession, peer_key_event}
use e2e_chat_rs.Prelude.{
  zero, suc, refl, arith, ℕ, ◌≡◌, true, Option, none, some, List, [], ◌∷◌, ◌++◌, ok,
}
use e2e_chat_rs.ChatCore.Event.{WireEvent, peer_key}
use e2e_chat_rs.ChatClient.Session
use e2e_chat_rs.ChatClient.Main.{
  Socket, Client, Input, ticks, receives, text_message, binary, goes_on,
}
use e2e_chat_rs.ChatClient.Main.Inbound.{on_message, run_loop}
use e2e_chat_rs.ChatClient.Main.Surviving.{
  IsOpen, IsHarmless, run_loop_survives, IsBelow, NeverPanics,
}
use e2e_chat_rs.ChatClient.Main.Meeting.{PeerKeyRoundTrips, programs_meet}
use e2e_chat_rs.Tests.Core.{alice, bob, alice_secret, bob_secret}
use e2e_chat_rs.Tests.Clients.{draws}
use e2e_chat_rs.Tests.Chats.{early_alice, early_bob, early_alice-Awaits, early_bob-Awaits}
use e2e_chat_rs.Tests.Toy.{toy, toy-DhAgrees, frame, split_at, split_at-append}

-- Keys have a text of their own, and all other events another.
write_event : WireEvent → List ℕ
unfolding frame
write_event (peer_key from to key) = 1 ∷ frame from.value (frame to.value key.bytes)
write_event _ = 0 ∷ []

read_parts : List ℕ × List ℕ → Option WireEvent
unfolding split_at
read_parts (from, []) = none
read_parts (from, n ∷ rest) =
    let (to, key) = split_at n rest in
    some (peer_key (record { value = from }) (record { value = to }) (record { bytes = key }))

read_event : List ℕ → Option WireEvent
unfolding read_parts split_at
read_event (suc zero ∷ n ∷ rest) = read_parts (split_at n rest)
read_event _ = none

abbrev kept : Socket (List (List ℕ))
kept = record {
  connect = λ url. some [];
  to_string = λ event. some (write_event event);
  from_str = read_event;
  send = λ sent payload. (true, sent ++ payload ∷ []);
}

kept-PeerKeyRoundTrips : PeerKeyRoundTrips kept
unfolding write_event read_event read_parts frame
kept-PeerKeyRoundTrips from to key payload e = ground (
  arith,
  split_at-append from.value (frame to.value key.bytes),
  split_at-append to.value key.bytes,
)

kept-IsOpen : IsOpen kept
kept-IsOpen = record { encodes = λ event. (write_event event, refl); sends = λ w payload. refl }

abbrev program : ClientSession → Client (List (List ℕ))
program s = record { session = s; pinned_fingerprint = none; writer = []; terminal = [] }

abbrev said_by : ClientSession → List ℕ
said_by s = write_event (peer_key_event s)

programs_meet_example :
    let c' =
      on_message kept toy (text_message (said_by early_bob)) (draws 1 []) (program early_alice) in
    let d' =
      on_message kept toy (text_message (said_by early_alice)) (draws 2 []) (program early_bob) in
    (a : CryptoSession) × (b : CryptoSession) × (c'.0 ≡ ok goes_on)
    × (d'.0 ≡ ok goes_on)
    × (c'.1.session.crypto_session ≡ some a)
    × (d'.1.session.crypto_session ≡ some b)
    × Linked a b
    × (c'.1.writer ≡ said_by early_alice ∷ [])
    × (d'.1.writer ≡ said_by early_bob ∷ [])
    × (on_message kept toy (text_message (said_by early_bob)) (draws 3 []) c'.1
        ≡ (ok goes_on, c'.1))
unfolding Session.new
programs_meet_example =
    programs_meet kept toy toy-DhAgrees kept-PeerKeyRoundTrips (λ w payload. refl)
      (program early_alice) (program early_bob) alice bob alice_secret bob_secret (draws 1 [])
      (draws 2 []) (draws 3 []) (said_by early_alice) (said_by early_bob) early_alice-Awaits
      early_bob-Awaits refl refl refl refl

abbrev inputs : List Input
inputs =
    ticks
    ∷ receives (some (ok (text_message (said_by early_bob)))) (draws 1 [])
    ∷ receives (some (ok binary)) (draws 2 [])
    ∷ receives (some (ok (text_message (said_by early_alice)))) (draws 3 [])
    ∷ []

decodes :
    (s : ClientSession)
    → (event : WireEvent) × (read_event (said_by s) ≡ some event) × IsBelow event
decodes s = (
  peer_key_event s,
  kept-PeerKeyRoundTrips s.local_id s.peer_id s.keypair.public_key (said_by s) refl,
  tt,
)

run_loop_survives_example :
    ((run_loop kept toy inputs (program early_alice)).0 ≡ ok goes_on)
    × NeverPanics kept toy inputs (program early_alice)
unfolding IsHarmless
run_loop_survives_example =
    run_loop_survives kept kept-IsOpen toy inputs (program early_alice)
      (tt, (decodes early_bob, (tt, (decodes early_alice, tt))))
