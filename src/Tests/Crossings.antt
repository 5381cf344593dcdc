-- ===== src/Tests/Crossings.antt =====
-- Two connections of a relay with room, alice's and bob's, in the steps of their tasks.
use e2e_chat_rs.ChatServer.Ws.Presence.Whole.{handle_socket_presence}
use e2e_chat_rs.ChatServer.Ws.Tracking.{is_there}
use e2e_chat_rs.Tests.Arrivals
use e2e_chat_rs.Tests.Arrivals.{connects_there, settles_there}
use e2e_chat_rs.ChatServer.Ws.Overtaking.Stranded.{Arriving, message_stranded}
use e2e_chat_rs.ChatServer.Ws.System.{later}
use e2e_chat_rs.ChatServer.Ws.Addressed.Reached.{no_stray_events}
use e2e_chat_rs.ChatServer.Ws.Overtaking.Reordered.{told_in_order, messages_reordered}
use e2e_chat_rs.ChatCore.Service.{NoopEventHook, NoopAuthProvider, noop_hook, noop_auth}
use e2e_chat_rs.ChatServer.Ws.Addressed.{list_cases, is_for, identity}
use e2e_chat_rs.Prelude.{
  ℕ, ◌≡◌, ◌≢◌, ap, refl, true, false, some, List, [], ◌∷◌, ◌++◌, arith, inl, inr, all, ℕ_discrete,
  none, if◌then◌else◌, ◌==◌, ◌&&◌, not,
}
use e2e_chat_rs.Prelude.Maps
use e2e_chat_rs.ChatServer.Ws.Overtaking.Stages.{Ready}
use e2e_chat_rs.ChatCore.Types.{ClientId-discrete, ClientId, ClientId_eq}
use e2e_chat_rs.ChatCore.Event.{WireEvent, EncryptedEnvelope, encrypted_message, ack}
use e2e_chat_rs.ChatServer.Ws.System
use e2e_chat_rs.ChatServer.Ws.Bounded.{IsReceived, IsPerHandle}
use e2e_chat_rs.ChatServer.Ws.Socket.{
  text_message, read_client_hello, handle_socket, received, other_message,
}
use e2e_chat_rs.ChatServer.Ws.{new_state, new_server, ServerState}
use e2e_chat_rs.ChatServer.Router.{InMemoryRouter, in_memory, connect}
use e2e_chat_rs.ChatServer.Router.Contract.{view, in_memory-Implements}
use e2e_chat_rs.Tests.Relayed.{Queues, queue, roomy, roomy-IsBounded, take, sealed}
use e2e_chat_rs.Tests.Interleaving.{decode}
use e2e_chat_rs.Tests.Core.{alice, bob, message}

roomy_takes :
    (h : ℕ) (event : WireEvent) (q : Queues)
    → (take h q).0 ≡ some event
    → q h ≡ event ∷ (take h q).1 h
roomy_takes h event q taken = elim (list_cases (q h)) [
  | inl empty ↦ ground arith
  | inr (x, xs, full) ↦ ground arith
]

roomy_keeps : (h j : ℕ) (q : Queues) → h ≢ j → (take h q).1 j ≡ q j
roomy_keeps h j q ne = elim (list_cases (q h)) [
  | inl empty ↦ ground arith
  | inr (x, xs, full) ↦ ground arith
]

roomy-IsReceived : IsReceived roomy queue
roomy-IsReceived = record {
  takes = roomy_takes;
  keeps = roomy_keeps;
  empties = λ h q. ground arith;
  drop_keeps = λ h j q ne. ground arith;
}

roomy-IsPerHandle : IsPerHandle roomy queue
roomy-IsPerHandle = record { is_queue = roomy-IsBounded.is_queue; others = roomy-IsBounded.others }

abbrev start : ServerState InMemoryRouter NoopEventHook NoopAuthProvider Queues ℕ
start = new_state new_server (λ _. [])

abbrev Mixed : System.World InMemoryRouter NoopEventHook NoopAuthProvider Queues → Type 0
Mixed w = Arrivals.Mixed roomy decode start w

abbrev nobody : System.World InMemoryRouter NoopEventHook NoopAuthProvider Queues
nobody = record { shared = start; pc = λ _. System.reading }

abbrev alice_there : System.World InMemoryRouter NoopEventHook NoopAuthProvider Queues
alice_there =
    Arrivals.settled roomy decode start 0 alice
      (Arrivals.connected roomy decode start 0 alice nobody)

alice_reached : Mixed alice_there
unfolding connect Maps.get Maps.insert read_client_hello ℕ_discrete ClientId-discrete
alice_reached =
    settles_there roomy decode start (Arrivals.connected roomy decode start 0 alice nobody) 0 alice
      refl
      (connects_there roomy decode start nobody 0 alice (text_message (1 ∷ []) ∷ []) refl refl refl
        refl System.begins)

abbrev bob_connected : System.World InMemoryRouter NoopEventHook NoopAuthProvider Queues
bob_connected = Arrivals.connected roomy decode start 1 bob alice_there

bob_reached : Mixed bob_connected
unfolding connect Maps.get Maps.insert read_client_hello ℕ_discrete ClientId-discrete
bob_reached =
    connects_there roomy decode start alice_there 1 bob (text_message [] ∷ []) refl refl refl refl
      alice_reached

abbrev sealed_next : EncryptedEnvelope
sealed_next = record sealed { message_id = message 2 }

abbrev sealed_answer : EncryptedEnvelope
sealed_answer = record sealed { sender = bob; recipient = alice; message_id = message 3 }

both_reached :
    (w : System.World InMemoryRouter NoopEventHook NoopAuthProvider Queues) × Mixed w
    × (w.pc 0 ≡ System.looping alice)
    × (w.pc 1 ≡ System.looping bob)
    × Ready in_memory noop_hook roomy view in_memory-Implements queue roomy-IsBounded 0 1 sealed
        w.shared
unfolding connect Maps.get Maps.insert read_client_hello ℕ_discrete ClientId-discrete
both_reached = (
  _,
  settles_there roomy decode start bob_connected 1 bob refl bob_reached,
  refl,
  refl,
  record {
    connected = record {
      apart = λ same. cc;
      handles_apart = λ same. omega arith;
      a_there = refl;
      b_there = refl;
      a_waits = refl;
      b_waits = refl;
      a_room = omega arith;
      b_room = omega arith;
    };
    a_room = omega arith;
    b_room = omega arith;
  },
)

messages_reordered_example :
    (x : System.World InMemoryRouter NoopEventHook NoopAuthProvider Queues) × Mixed x
    × (x.pc 0 ≡ System.looping alice)
    × (x.pc 1 ≡ System.looping bob)
    × (x.shared.connections ≡ both_reached.0.shared.connections)
    × (x.shared.hook
        ≡ told_in_order in_memory noop_hook noop_auth roomy decode view in_memory-Implements queue
            roomy-IsBounded 0 1 sealed sealed_next sealed_answer both_reached.0.shared.hook)
    × (queue x.shared.channels 1
        ≡ queue both_reached.0.shared.channels 1
          ++ encrypted_message sealed_next ∷ encrypted_message sealed ∷ ack (message 3) ∷ [])
messages_reordered_example =
    messages_reordered in_memory noop_hook noop_auth roomy decode view in_memory-Implements queue
      roomy-IsBounded 0 1 sealed sealed_next sealed_answer start both_reached.0 both_reached.1
      both_reached.2 both_reached.3 (λ same. omega arith)
      (record { same_sender = refl; same_recipient = refl; answer_from = refl; answer_to = refl })
      both_reached.4

-- Alice's messages for bob stand in his channel, and her own receiver has gone.
abbrev message_sent :
    (w : System.World InMemoryRouter NoopEventHook NoopAuthProvider Queues) × Mixed w
message_sent = (
  _,
  later messages_reordered_example.1
      (System.loses_writer 0 (ap System.has_writer messages_reordered_example.2)),
)

no_stray_events_example :
    ((id : ClientId) (outbox : List WireEvent)
      → view message_sent.0.shared.router id ≡ some outbox
      → all (is_for id) outbox ≡ true)
    × ((i : ℕ) (id : ClientId)
        → identity (message_sent.0.pc i) ≡ some id
        → all (is_for id) (queue message_sent.0.shared.channels i) ≡ true)
unfolding Maps.get
no_stray_events_example =
    no_stray_events in_memory noop_hook noop_auth roomy decode view in_memory-Implements queue
      roomy-IsPerHandle roomy-IsReceived start (λ id. refl) (λ id. refl) (λ i. refl) message_sent.1

-- Bob is in the router, and about to be entered in the connection map.
arrival_reached :
    (w : System.World InMemoryRouter NoopEventHook NoopAuthProvider Queues) × Mixed w
    × (w.pc 0 ≡ System.looping alice)
    × (w.pc 1 ≡ System.inserting bob)
    × Arriving in_memory noop_hook roomy view in_memory-Implements queue roomy-IsBounded 0 sealed
        w.shared
unfolding connect Maps.get Maps.insert read_client_hello ℕ_discrete ClientId-discrete
arrival_reached = (
  bob_connected,
  bob_reached,
  refl,
  refl,
  record {
    apart = λ same. cc;
    a_there = refl;
    b_unlisted = refl;
    a_waits = refl;
    b_waits = refl;
    a_room = omega arith;
  },
)

message_stranded_example :
    (x : System.World InMemoryRouter NoopEventHook NoopAuthProvider Queues) × Mixed x
    × (x.pc 0 ≡ System.looping alice)
    × (x.pc 1 ≡ System.looping bob)
    × (Maps.get x.shared.connections bob ≡ some 1)
    × (view x.shared.router bob ≡ some (encrypted_message sealed ∷ []))
    × (queue x.shared.channels 1 ≡ queue arrival_reached.0.shared.channels 1)
    × (queue x.shared.channels 0
        ≡ queue arrival_reached.0.shared.channels 0 ++ ack (message 1) ∷ [])
message_stranded_example =
    message_stranded in_memory noop_hook noop_auth roomy decode view in_memory-Implements queue
      roomy-IsBounded 0 1 sealed start arrival_reached.0 arrival_reached.1 arrival_reached.2
      arrival_reached.3 arrival_reached.4

-- Alice's connection from its hello to its end.
handle_socket_presence_example :
    let done =
      handle_socket in_memory noop_hook noop_auth roomy decode
        (text_message (1 ∷ []) ∷ [])
        (received (some other_message) ∷ received none ∷ [])
        0
        start in
    (done.0 ≡ false)
    × ((j : ClientId)
        → is_there (view (done.1).router j) ≡ (if alice == j && true then false else false))
    × ((j : ClientId)
        → ((alice == j) && true && not done.0 && is_there (Maps.get (done.1).connections j))
          ≡ false)
unfolding read_client_hello Maps.get
handle_socket_presence_example =
    handle_socket_presence in_memory noop_hook noop_auth roomy decode view in_memory-Implements
      (text_message (1 ∷ []) ∷ []) (received (some other_message) ∷ received none ∷ []) 0 start
