-- ===== src/Tests/Interleaving.antt =====
-- An interleaving of three connections: alice's flush finds bob's channel full, and bob comes back
-- before his old handle is dropped.
use e2e_chat_rs.Tests.Arrivals
use e2e_chat_rs.Tests.Arrivals.{connects_there, settles_there}
use e2e_chat_rs.ChatServer.Ws.System.Race.{reconnect_lost, departure_told_last}
use e2e_chat_rs.ChatServer.Ws.Tracking.{is_there}
use e2e_chat_rs.ChatServer.Ws.System.Ownership.{Owned, Reach-Owned}
use e2e_chat_rs.Prelude.{
  ℕ, ◌≡◌, refl, ℕ_discrete, true, false, Option, none, some, List, [], ◌∷◌, ◌+◌,
}
use e2e_chat_rs.Prelude.Maps
use e2e_chat_rs.ChatCore.Types.{ClientId-discrete, ClientId_eq, ClientId}
use e2e_chat_rs.ChatCore.Event.{WireEvent, peer_key, client_hello}
use e2e_chat_rs.ChatCore.Service.{noop_auth, noop_hook, NoopEventHook, NoopAuthProvider}
use e2e_chat_rs.ChatServer.Router.{
  InMemoryRouter, in_memory, connect, route, disconnect, drain_outbox, recipient_for, ack_for,
  push_back,
}
use e2e_chat_rs.ChatServer.Router.Contract.{view, in_memory-Implements}
use e2e_chat_rs.ChatServer.Ws.{
  Channels, ServerState, new_state, new_server, collect, delivery_targets,
}
use e2e_chat_rs.ChatServer.Ws.Socket.{text_message, read_client_hello}
use e2e_chat_rs.ChatServer.Ws.System
use e2e_chat_rs.Tests.Core.{alice, bob}

-- Channels without room, which count the connections that they have told to close.
abbrev pub full : Channels ℕ ℕ
full = record {
  try_send = λ h event n. (false, n);
  send_close = λ h n. n + 1;
  recv = λ h n. (none, n);
  drop_receiver = λ h n. n;
}

-- The text of one character is alice's hello, any other is bob's.
abbrev pub decode : List ℕ → Option WireEvent
decode (x ∷ []) = some (client_hello alice (record { bytes = [] }))
decode _ = some (client_hello bob (record { bytes = [] }))

abbrev start : ServerState InMemoryRouter NoopEventHook NoopAuthProvider ℕ ℕ
start = new_state new_server 0

abbrev Mixed : System.World InMemoryRouter NoopEventHook NoopAuthProvider ℕ → Type 0
Mixed w = Arrivals.Mixed full decode start w

abbrev connected :
    ℕ
    → ClientId
    → System.World InMemoryRouter NoopEventHook NoopAuthProvider ℕ
    → System.World InMemoryRouter NoopEventHook NoopAuthProvider ℕ
connected i id w = Arrivals.connected full decode start i id w

abbrev nobody : System.World InMemoryRouter NoopEventHook NoopAuthProvider ℕ
nobody = record { shared = start; pc = λ _. System.reading }

abbrev bob_there : System.World InMemoryRouter NoopEventHook NoopAuthProvider ℕ
bob_there = Arrivals.settled full decode start 0 bob (connected 0 bob nobody)

bob_reached : Mixed bob_there
unfolding connect Maps.get Maps.insert read_client_hello ℕ_discrete ClientId-discrete
bob_reached = settles_there full decode start (connected 0 bob nobody) 0 bob refl (
    connects_there full decode start nobody 0 bob (text_message [] ∷ []) refl refl refl refl
      System.begins)

-- What alice sends to bob.
abbrev knock : WireEvent
knock = peer_key alice bob (record { bytes = [] })

race_reached :
    (w : System.World InMemoryRouter NoopEventHook NoopAuthProvider ℕ) × Mixed w
    × (w.pc 2 ≡ System.inserting bob)
    × (w.pc 1 ≡ System.dropping alice bob [])
unfolding connect route disconnect drain_outbox recipient_for ack_for push_back collect
    delivery_targets Maps.get Maps.insert Maps.remove read_client_hello ℕ_discrete ClientId-discrete
race_reached =
    let r8 =
      connects_there full decode start bob_there 1 alice (text_message (1 ∷ []) ∷ []) refl refl refl
        refl bob_reached in
    let r10 = settles_there full decode start (connected 1 alice bob_there) 1 alice refl r8 in
    let r11 = System.later r10 (System.moves 1 (System.hears alice knock)) in
    let r12 = System.later r11 (System.moves 1 (System.routes alice knock refl)) in
    let r13 = System.later r12 (System.moves 1 (System.accepts alice knock)) in
    let r14 = System.later r13 (System.moves 1 (System.collects alice (bob ∷ []))) in
    let r15 = System.later r14 (System.moves 1 (System.overflows alice 0 bob knock [] [] refl)) in
    let r16 = System.later r15 (System.moves 0 (System.stops bob)) in
    let r17 = System.later r16 (System.moves 0 (System.leaves bob)) in
    let r18 = System.later r17 (System.moves 0 (System.disconnects bob refl)) in
    (
      _,
      connects_there full decode start _ 2 bob (text_message [] ∷ []) refl refl refl refl r18,
      refl,
      refl,
    )

Reach-Owned_example : Owned view race_reached.0
unfolding Maps.get
Reach-Owned_example =
    Reach-Owned in_memory noop_hook noop_auth full decode view in_memory-Implements start
      (λ id. refl) (λ id. refl) race_reached.1

reconnect_lost_example :
    (x : System.World InMemoryRouter NoopEventHook NoopAuthProvider ℕ) × Mixed x
    × (x.pc 2 ≡ System.looping bob)
    × (is_there (view x.shared.router bob) ≡ true)
    × (Maps.get x.shared.connections bob ≡ none)
    × (x.shared.channels ≡ race_reached.0.shared.channels)
unfolding Maps.get
reconnect_lost_example =
    reconnect_lost in_memory noop_hook noop_auth full decode view in_memory-Implements start
      (λ id. refl) (λ id. refl) race_reached.0 2 1 bob alice [] race_reached.1 race_reached.2
      race_reached.3

-- Bob hangs up and comes back before his end is reported.
farewell_reached :
    (w : System.World InMemoryRouter NoopEventHook NoopAuthProvider ℕ) × Mixed w
    × (w.pc 0 ≡ System.departing bob)
    × (w.pc 1 ≡ System.connecting bob)
    × (view w.shared.router bob ≡ none)
unfolding connect disconnect Maps.get Maps.insert Maps.remove read_client_hello ℕ_discrete
    ClientId-discrete
farewell_reached =
    let r6 = System.later bob_reached (System.moves 0 (System.stops bob)) in
    let r7 = System.later r6 (System.moves 0 (System.leaves bob)) in
    let r8 = System.later r7 (System.moves 0 (System.disconnects bob refl)) in
    let r9 =
      System.later r8 (System.moves 1 (System.reads_hello (text_message [] ∷ []) bob refl)) in
    let r10 = System.later r9 (System.moves 1 (System.authorizes bob refl refl)) in
    (_, r10, refl, refl, refl)

departure_told_last_example :
    (x : System.World InMemoryRouter NoopEventHook NoopAuthProvider ℕ) × Mixed x
    × (x.pc 0 ≡ System.ended)
    × (x.pc 1 ≡ System.looping bob)
    × (is_there (view x.shared.router bob) ≡ true)
    × (Maps.get x.shared.connections bob ≡ some 1)
    × (x.shared.hook
        ≡ noop_hook.on_disconnect (noop_hook.on_connect farewell_reached.0.shared.hook bob) bob)
departure_told_last_example =
    departure_told_last in_memory noop_hook noop_auth full decode view in_memory-Implements start
      farewell_reached.0 0 1 bob farewell_reached.1 farewell_reached.2 farewell_reached.3
      farewell_reached.4
