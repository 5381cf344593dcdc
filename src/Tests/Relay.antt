-- ===== src/Tests/Relay.antt =====
-- The theorems of chat-server at concrete histories of a relay.
use e2e_chat_rs.ChatServer.Ws.Slow.{IsQueue, send_events-queue}
use e2e_chat_rs.Prelude.{
  zero, suc, false, ℕ, ◌≡◌, refl, Option, some, List, [], ◌∷◌, ◌++◌, arith, true, Bool, ◌⊎◌, ◌≢◌,
  none,
}
use e2e_chat_rs.Prelude.Maps
use e2e_chat_rs.ChatCore.Types.{ClientId, ClientId-discrete, ClientId_eq}
use e2e_chat_rs.ChatCore.Event.{WireEvent, peer_key}
use e2e_chat_rs.ChatCore.Service.{noop_auth, noop_hook, NoopEventHook, NoopAuthProvider}
use e2e_chat_rs.ChatServer.Router.{
  recipient_for, ack_for, push_back, InMemoryRouter, in_memory, default, connect, route,
  drain_outbox,
}
use e2e_chat_rs.ChatServer.Router.Contract.{view, in_memory-Implements}
use e2e_chat_rs.ChatServer.Router.Delivery.{
  Request, connects, disconnects, routes, drains, after_all, all_drained, all_queued, nothing_lost,
  drained, after,
}
use e2e_chat_rs.ChatServer.Ws.{
  Channels, ServerState, new_state, new_server, register_client, send_events,
}
use e2e_chat_rs.ChatServer.Ws.Socket.{Wake, open_connection, turn}
use e2e_chat_rs.ChatServer.Ws.Tracking.{
  register_client-Tracked, new_state-Tracked, Tracked, steps-Tracked,
}
use e2e_chat_rs.Tests.Core.{alice, bob}

abbrev hello : WireEvent
hello = peer_key alice bob (record { bytes = 1 ∷ [] })

abbrev with_bob : InMemoryRouter
with_bob = (connect default bob).1

abbrev requests : List Request
requests =
    connects alice ∷ routes alice hello ∷ routes alice hello ∷ drains bob ∷ disconnects alice ∷ []

bob_gets_two : all_drained in_memory bob requests with_bob ≡ hello ∷ hello ∷ []
unfolding all_drained drained after connect route drain_outbox recipient_for ack_for push_back
    Maps.get Maps.insert ClientId-discrete
bob_gets_two = refl

nothing_lost_example :
    (q : List WireEvent) × (view (after_all in_memory requests with_bob) bob ≡ some q)
    × (all_drained in_memory bob requests with_bob ++ q
        ≡ [] ++ all_queued in_memory bob requests with_bob)
unfolding connect Maps.get Maps.insert ClientId-discrete
nothing_lost_example =
    nothing_lost bob [] requests with_bob (tt, (tt, (tt, (tt, (ground arith, tt))))) refl

-- Channels with a count of the events that fit.
abbrev counted : Channels ℕ ClientId
counted = record {
  try_send = λ id event room. elim room [ zero ↦ (false, zero) | suc n ↦ (true, n) ];
  send_close = λ id room. room;
  recv = λ id room. (none, room);
  drop_receiver = λ id room. zero;
}

abbrev relay : ServerState InMemoryRouter NoopEventHook NoopAuthProvider ℕ ClientId
relay = (register_client in_memory noop_hook bob bob (new_state new_server 1)).1

abbrev from_str : List ℕ → Option WireEvent
from_str raw = some hello

relay-Tracked : Tracked view relay
relay-Tracked =
    register_client-Tracked in_memory noop_hook noop_auth counted from_str view in_memory-Implements
      bob bob (new_state new_server 1) (new_state-Tracked {S = ℕ} ClientId view new_server 1)

steps-Tracked_example :
    ((announced : Option ClientId)
      → Tracked view (open_connection in_memory noop_hook noop_auth announced alice relay).1)
    × ((id : ClientId) (wake : Wake)
        → Tracked view (turn in_memory noop_hook counted from_str id alice wake relay).1)
steps-Tracked_example =
    steps-Tracked in_memory noop_hook noop_auth counted from_str view in_memory-Implements relay
      alice relay-Tracked

-- One queue, with room for one event.
abbrev try_one : WireEvent → List WireEvent → Bool × List WireEvent
try_one event [] = (true, event ∷ [])
try_one event (waiting ∷ rest) = (false, waiting ∷ rest)

abbrev take_one : List WireEvent → Option WireEvent × List WireEvent
take_one [] = (none, [])
take_one (event ∷ rest) = (some event, rest)

abbrev narrow : Channels (List WireEvent) ClientId
narrow = record {
  try_send = λ id event q. try_one event q;
  send_close = λ id q. q;
  recv = λ id q. take_one q;
  drop_receiver = λ id q. [];
}

narrow_sends :
    (event : WireEvent) (q : List WireEvent)
    → (try_one event q).0 ≡ true
    → (try_one event q).1 ≡ q ++ event ∷ []
narrow_sends event [] h = refl
narrow_sends event (waiting ∷ rest) h = cc

narrow_refuses :
    (event : WireEvent) (q : List WireEvent) → (try_one event q).0 ≡ false → (try_one event q).1 ≡ q
narrow_refuses event [] h = cc
narrow_refuses event (waiting ∷ rest) h = refl

narrow-IsQueue : IsQueue narrow (λ q id. q)
narrow-IsQueue = record {
  sends = λ id event q h. narrow_sends event q h;
  refuses = λ id event q h. narrow_refuses event q h;
  closes = λ id j q. refl;
}

abbrev narrow_relay :
    ServerState InMemoryRouter NoopEventHook NoopAuthProvider (List WireEvent) ClientId
narrow_relay = (register_client in_memory noop_hook bob bob (new_state new_server [])).1

abbrev flushed : ServerState InMemoryRouter NoopEventHook NoopAuthProvider (List WireEvent) ClientId
flushed = send_events narrow bob bob (hello ∷ hello ∷ []) narrow_relay

send_events-queue_example :
    (sent : List WireEvent) × (dropped : List WireEvent) × (hello ∷ hello ∷ [] ≡ sent ++ dropped)
    × (flushed.channels ≡ narrow_relay.channels ++ sent)
    × (((dropped ≡ []) × (flushed.connections ≡ narrow_relay.connections))
        ⊎ ((dropped ≢ []) × (Maps.get flushed.connections bob ≡ none)))
send_events-queue_example =
    send_events-queue narrow (λ q id. q) narrow-IsQueue bob bob (hello ∷ hello ∷ []) narrow_relay
