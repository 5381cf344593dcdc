-- ===== src/Tests/Relayed.antt =====
-- A relay with two connected clients and room in their channels.
use e2e_chat_rs.ChatServer.Ws.Takeover.{takeover_refused}
use e2e_chat_rs.ChatServer.Ws.Socket
use e2e_chat_rs.Conversation.{Relayed, line_goes_through}
use e2e_chat_rs.ChatCore.Crypto.Delivery.{sent_one}
use e2e_chat_rs.ChatClient.Session.Rotation.{at_session}
use e2e_chat_rs.ChatServer.Ws.Delivering.{Connected, message_delivered}
use e2e_chat_rs.ChatCore.Service.{NoopEventHook, noop_hook, NoopAuthProvider, noop_auth, AuthError}
use e2e_chat_rs.ChatServer.Ws.Socket.{
  Incoming, open_connection, read_client_hello, on_event, Wake, turn, refused, rejection,
}
use e2e_chat_rs.ChatCore.Crypto.Session.{CryptoSession}
use e2e_chat_rs.ChatServer.Router.{InMemoryRouter, in_memory}
use e2e_chat_rs.ChatClient.Session.{encrypt_line, handle_event, chat_text}
use e2e_chat_rs.ChatCore.Event.{EncryptedEnvelope, WireEvent, encrypted_message, ack}
use e2e_chat_rs.ChatServer.Ws.Bounded.{IsBounded}
use e2e_chat_rs.ChatServer.Ws.{
  Channels, ServerState, register_client, route_and_flush, outbox_capacity, new_state, new_server,
}
use e2e_chat_rs.Prelude.{
  ℕ, List, if◌then◌else◌, [], Option, text, ◌==◌, ltb, ◌≡◌, length, ◌≢◌, none, ◌++◌, true, false,
  ◌<◌, Bool-cases, arith, ok, ◌∷◌, inl, lt→ltb, ℕ_eq, inr, some, ◌⊎◌,
}
use e2e_chat_rs.Prelude.Maps
use e2e_chat_rs.Prelude.{refl}
use e2e_chat_rs.ChatCore.Crypto.Session.{new}
use e2e_chat_rs.ChatServer.Router.{connect}
use e2e_chat_rs.ChatCore.Crypto.Linked.{Linked}
use e2e_chat_rs.ChatServer.Router.Contract.{view, in_memory-Implements}
use e2e_chat_rs.Tests.Core.{alice, bob, alice_session, bob_session, message, sessions-Linked}
use e2e_chat_rs.Tests.Clients.{alice_client, bob_client, draws}
use e2e_chat_rs.Tests.Toy.{toy, toy-NeverFails, toy-AeadRoundTrips, toy-PayloadRoundTrips}
use e2e_chat_rs.ChatCore.Types.{ClientId, ClientId-discrete, ClientId_eq}

-- Numbered queues of the capacity of the relay.
abbrev pub Queues : Type 0
Queues = ℕ → List WireEvent

abbrev pub queue : Queues → ℕ → List WireEvent
queue q h = q h

abbrev push : ℕ → WireEvent → Queues → Queues
push h event q j = if h == j then q j ++ event ∷ [] else q j

abbrev pub take : ℕ → Queues → Option WireEvent × Queues
take h q = elim (q h) [
  | [] ↦ (none, q)
  | event ∷ events ↦ (some event, λ j. if h == j then events else q j)
]

abbrev pub roomy : Channels Queues ℕ
roomy = record {
  try_send = λ h event q.
      if ltb (length (q h)) outbox_capacity then (true, push h event q) else (false, q);
  send_close = λ h q. q;
  recv = take;
  drop_receiver = λ h q j. if h == j then [] else q j;
}

roomy_sends :
    (h : ℕ) (event : WireEvent) (q : Queues)
    → (roomy.try_send h event q).0 ≡ true
    → (roomy.try_send h event q).1 h ≡ q h ++ event ∷ []
roomy_sends h event q sent = elim (Bool-cases (ltb (length (q h)) outbox_capacity)) [
  | inl e ↦ ground arith
  | inr e ↦ ground arith
]

roomy_refuses :
    (h : ℕ) (event : WireEvent) (q : Queues)
    → (roomy.try_send h event q).0 ≡ false
    → (roomy.try_send h event q).1 h ≡ q h
roomy_refuses h event q no_room = elim (Bool-cases (ltb (length (q h)) outbox_capacity)) [
  | inl e ↦ ground arith
  | inr e ↦ ground arith
]

roomy_accepts :
    (h : ℕ) (event : WireEvent) (q : Queues)
    → length (q h) < outbox_capacity
    → (roomy.try_send h event q).0 ≡ true
roomy_accepts h event q room = ground (arith, lt→ltb (length (q h)) outbox_capacity room)

roomy_others :
    (h j : ℕ) (event : WireEvent) (q : Queues) → h ≢ j → (roomy.try_send h event q).1 j ≡ q j
roomy_others h j event q ne = elim (Bool-cases (ltb (length (q h)) outbox_capacity)) [
  | inl e ↦ ground arith
  | inr e ↦ ground arith
]

pub roomy-IsBounded : IsBounded roomy queue
roomy-IsBounded = record {
  is_queue = record { sends = roomy_sends; refuses = roomy_refuses; closes = λ h j q. refl };
  accepts = roomy_accepts;
  others = roomy_others;
}

-- Alice has the first channel, and bob the second.
abbrev pub both : ServerState InMemoryRouter NoopEventHook NoopAuthProvider Queues ℕ
both =
    (register_client in_memory noop_hook bob 1
      (register_client in_memory noop_hook alice 0 (new_state new_server (λ _. []))).1).1

pub both-Connected :
    Connected in_memory noop_hook roomy queue roomy-IsBounded view in_memory-Implements both alice
      bob 0 1 [] []
unfolding register_client connect Maps.get Maps.insert ClientId-discrete
both-Connected = record {
  apart = λ same. cc;
  handles_apart = λ same. omega arith;
  a_there = refl;
  b_there = refl;
  a_waits = refl;
  b_waits = refl;
  a_room = omega arith;
  b_room = omega arith;
}

abbrev pub sealed : EncryptedEnvelope
sealed = record {
  sender = alice;
  recipient = bob;
  message_id = message 1;
  epoch = 0;
  nonce = record { bytes = [] };
  ciphertext = record { bytes = [] };
}

message_delivered_example :
    let done = route_and_flush in_memory noop_hook roomy alice (encrypted_message sealed) both in
    (done.0 ≡ ok tt)
    × (done.1.connections ≡ both.connections)
    × (queue done.1.channels 1 ≡ queue both.channels 1 ++ ([] ++ encrypted_message sealed ∷ []))
    × (queue done.1.channels 0 ≡ queue both.channels 0 ++ ([] ++ ack (message 1) ∷ []))
    × (view done.1.router bob ≡ some [])
    × (view done.1.router alice ≡ some [])
message_delivered_example =
    message_delivered in_memory noop_hook roomy queue roomy-IsBounded view in_memory-Implements both
      sealed 0 1 [] [] both-Connected

abbrev from_str : List ℕ → Option WireEvent
from_str raw = none

abbrev pub greeting : List ℕ
greeting = text "hi"

line_goes_through_example :
    (envelope : EncryptedEnvelope) × (b' : CryptoSession) × (encrypt_line toy greeting
        (draws 1 [])
        alice_client
      ≡ (ok (encrypted_message envelope ∷ []), at_session alice_client (sent_one alice_session)))
    × Relayed toy
        (toy-NeverFails 1000)
        toy-AeadRoundTrips
        toy-PayloadRoundTrips
        in_memory
        noop_hook
        roomy
        from_str
        queue
        roomy-IsBounded
        view
        in_memory-Implements
        both
        (on_event in_memory noop_hook roomy from_str alice 0 (encrypted_message envelope) both)
        envelope
        0
        1
    × (handle_event toy (encrypted_message envelope) (draws 2 []) bob_client ≡ (
      ok (record { event = some (chat_text greeting); reply_event = none }),
      at_session bob_client b',
    ))
    × Linked (sent_one alice_session) b'
unfolding toy toy-NeverFails new
line_goes_through_example =
    line_goes_through toy (toy-NeverFails 1000) toy-AeadRoundTrips toy-PayloadRoundTrips in_memory
      noop_hook roomy from_str queue roomy-IsBounded view in_memory-Implements alice_client
      bob_client alice_session bob_session (draws 1 []) (draws 2 []) greeting both 0 1 refl refl
      refl sessions-Linked.0 (omega arith) (omega arith) both-Connected

-- A second connection that calls itself alice.
takeover_refused_example :
    let start = open_connection in_memory noop_hook noop_auth (some alice) 2 both in
    ((start.0 ≡ Socket.ended) ⊎ ((e : AuthError) × (start.0 ≡ refused (rejection e))))
    × (start.1.connections ≡ both.connections)
    × (start.1.hook ≡ both.hook)
    × (start.1.channels ≡ both.channels)
    × ((j : ClientId) → view start.1.router j ≡ view both.router j)
unfolding register_client connect Maps.get Maps.insert ClientId-discrete
takeover_refused_example =
    takeover_refused in_memory noop_hook noop_auth view in_memory-Implements alice 2 [] both refl
