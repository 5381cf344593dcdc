-- ===== src/Tests/Units/Relay.antt =====
-- The unit tests of crates/chat-server/src/ws.rs.
use e2e_chat_rs.Prelude.{
  ◌≡◌, refl, ℕ, ℕ_discrete, List, [], ◌∷◌, ◌++◌, none, Bool, true, false, ok, err, length, text,
  replicate, ltb, if◌then◌else◌, ◌==◌, ℕ_eq, some, not, ◌&&◌,
}
use e2e_chat_rs.Prelude.Maps
use e2e_chat_rs.ChatCore.Types.{ClientId, ClientId-discrete, ClientId_eq}
use e2e_chat_rs.ChatCore.Event.{WireEvent, peer_key, encrypted_message, ack}
use e2e_chat_rs.ChatCore.Service.{
  MessageRouter, EventHook, sender_mismatch, unknown_recipient, unsupported_event, noop_hook,
  NoopEventHook, NoopAuthProvider,
}
use e2e_chat_rs.ChatServer.Router.{
  InMemoryRouter, connect, disconnect, route, drain_outbox, recipient_for, ack_for, push_back,
  in_memory,
}
use e2e_chat_rs.ChatServer.Ws.{
  Channels, ServerState, outbox_capacity, new_state, new_server, with_router, with_hook,
  register_client, unregister_client, collect, send_events, deliver_all, flush_outboxes,
  route_and_flush, delivery_targets, should_report_routing_error,
}
use e2e_chat_rs.Tests.Core.{alice, bob, message}
use e2e_chat_rs.Tests.Units.Router.{mallory, key_from, message_of, first_is}

abbrev carol : ClientId
carol = record { value = text "carol" }

-- The contents of the channels, and who was told to close, and whose receiver has gone. A handle is the number of its pair.
pub record Contents : Type 0 where
  pub queue : ℕ → List WireEvent
  pub closed : ℕ → Bool
  pub gone : ℕ → Bool

abbrev pub nothing : Contents
nothing = record { queue = λ _. []; closed = λ _. false; gone = λ _. false }

abbrev set : {A : Type 0} → ℕ → A → (ℕ → A) → ℕ → A
set h a f j = if h == j then a else f j

-- Channels of which the `h`-th has `capacity h` places.
abbrev pub mpsc : (ℕ → ℕ) → Channels Contents ℕ
mpsc capacity = record {
  try_send = λ h event s.
      if not (s.gone h) && ltb (length (s.queue h)) (capacity h)
      then (true, record s { queue = set h (s.queue h ++ event ∷ []) s.queue })
      else (false, s);
  send_close = λ h s. record s { closed = set h true s.closed };
  recv = λ h s. elim (s.queue h) [
    | [] ↦ (none, s)
    | event ∷ events ↦ (some event, record s { queue = set h events s.queue })
  ];
  drop_receiver = λ h s. record s { queue = set h [] s.queue; gone = set h true s.gone };
}

abbrev pub wide : Channels Contents ℕ
wide = mpsc (λ _. outbox_capacity)

abbrev pub is_peer_key : WireEvent → Bool
is_peer_key (peer_key from to public_key) = true
is_peer_key _ = false

SuppressesUnknownRecipientErrorForPeerKeyRetry : Type 0
SuppressesUnknownRecipientErrorForPeerKeyRetry =
    should_report_routing_error (key_from alice 1) unknown_recipient ≡ false

ReportsUnknownRecipientErrorForEncryptedMessage : Type 0
ReportsUnknownRecipientErrorForEncryptedMessage =
    should_report_routing_error (message_of 7 (1 ∷ 2 ∷ 3 ∷ [])) unknown_recipient ≡ true

abbrev pub rejecting_router : MessageRouter (Unit {0})
rejecting_router = record {
  connect = λ r client_id. (ok tt, r);
  disconnect = λ r client_id. (ok tt, r);
  route = λ r connection_id event. (err unsupported_event, r);
  drain_outbox = λ r client_id. ([], r);
}

RouteAndFlushAcceptsMessageRouterImplementation : Type 0
RouteAndFlushAcceptsMessageRouterImplementation =
    (route_and_flush rejecting_router noop_hook wide alice (key_from alice 4)
      (new_state (with_router new_server tt) nothing)).0
    ≡ err unsupported_event

DeliveryTargetsCoverRecipientAndAckSender : Type 0
DeliveryTargetsCoverRecipientAndAckSender =
    (delivery_targets alice (key_from alice 4) ≡ bob ∷ [])
    × (delivery_targets alice (message_of 7 (1 ∷ 2 ∷ 3 ∷ [])) ≡ bob ∷ alice ∷ [])

abbrev pub State : Type 0
State = ServerState InMemoryRouter NoopEventHook NoopAuthProvider Contents ℕ

abbrev registered : ClientId → ℕ → State → State
registered id h s = (register_client in_memory noop_hook id h s).1

abbrev IsRegistered : ClientId → ℕ → State → Type 0
IsRegistered id h s = (register_client in_memory noop_hook id h s).0 ≡ ok tt

abbrev routed : ClientId → WireEvent → State → State
routed id event s = record s { router = (route s.router id event).1 }

abbrev pub empty_state : State
empty_state = new_state new_server nothing

abbrev to_carol : WireEvent
to_carol = encrypted_message (record {
  sender = alice;
  recipient = carol;
  message_id = message 2;
  epoch = 0;
  nonce = record { bytes = replicate 24 1 };
  ciphertext = record { bytes = 9 ∷ 9 ∷ 9 ∷ [] };
})

FlushOutboxesDrainsOnlyTargetClients : Type 0
FlushOutboxesDrainsOnlyTargetClients =
    let one = registered alice 0 empty_state in
    let two = registered bob 1 one in
    let three = registered carol 2 two in
    let seeded = routed alice to_carol three in
    let ready = routed alice (key_from alice 4) seeded in
    let flushed =
      flush_outboxes in_memory noop_hook wide (delivery_targets alice (key_from alice 4)) ready in
    IsRegistered alice 0 empty_state
    × IsRegistered bob 1 one
    × IsRegistered carol 2 two
    × ((route three.router alice to_carol).0 ≡ ok tt)
    × ((route seeded.router alice (key_from alice 4)).0 ≡ ok tt)
    × (first_is is_peer_key (flushed.channels.queue 1) ≡ true)
    × (flushed.channels.queue 0 ≡ [])
    × (flushed.channels.queue 2 ≡ [])
    × (length (drain_outbox flushed.router carol).0 ≡ 1)

-- Alice's channel has one place, which is taken.
abbrev narrow : Channels Contents ℕ
narrow = mpsc (λ h. if h == 0 then 1 else outbox_capacity)

abbrev filled : State
filled = record empty_state {
  channels = record {
    queue = set 0 (ack (message 3) ∷ []) (λ _. []);
    closed = λ _. false;
    gone = λ _. false;
  };
}

abbrev key_to_alice : WireEvent
key_to_alice = peer_key bob alice (record { bytes = replicate 32 4 })

FlushOutboxesClosesSlowClientWhenOutboxIsFull : Type 0
FlushOutboxesClosesSlowClientWhenOutboxIsFull =
    let one = registered alice 0 filled in
    let two = registered bob 1 one in
    let flushed =
      flush_outboxes in_memory noop_hook narrow (delivery_targets bob key_to_alice)
        (routed bob key_to_alice two) in
    IsRegistered alice 0 filled
    × IsRegistered bob 1 one
    × ((route two.router bob key_to_alice).0 ≡ ok tt)
    × (Maps.get flushed.connections alice ≡ none)
    × (flushed.channels.closed 0 ≡ true)
    × (flushed.channels.queue 1 ≡ [])
    × (flushed.channels.closed 1 ≡ false)

-- A hook that keeps the names of its calls.
abbrev pub recording_hook : EventHook (List (List ℕ))
recording_hook = record {
  on_connect = λ calls client_id. calls ++ text "connect" ∷ [];
  on_disconnect = λ calls client_id. calls ++ text "disconnect" ∷ [];
  on_route_accepted = λ calls connection_id event. calls ++ text "route_accepted" ∷ [];
  on_route_rejected = λ calls connection_id event error. calls ++ text "route_rejected" ∷ [];
}

abbrev pub recording : ServerState InMemoryRouter (List (List ℕ)) NoopAuthProvider Contents ℕ
recording = new_state (with_hook new_server []) nothing

EventHookObservesConnectionLifecycle : Type 0
EventHookObservesConnectionLifecycle =
    let started = register_client in_memory recording_hook alice 0 recording in
    (started.0 ≡ ok tt)
    × ((unregister_client in_memory recording_hook alice started.1).hook
        ≡ text "connect" ∷ text "disconnect" ∷ [])

EventHookObservesRouteSuccessAndError : Type 0
EventHookObservesRouteSuccessAndError =
    let one = register_client in_memory recording_hook alice 0 recording in
    let two = register_client in_memory recording_hook bob 1 one.1 in
    let sent = route_and_flush in_memory recording_hook wide alice (key_from alice 4) two.1 in
    let forged = route_and_flush in_memory recording_hook wide alice (key_from mallory 5) sent.1 in
    (one.0 ≡ ok tt)
    × (two.0 ≡ ok tt)
    × (sent.0 ≡ ok tt)
    × (forged.0 ≡ err sender_mismatch)
    × (forged.1.hook
        ≡ text "connect" ∷ text "connect" ∷ text "route_accepted" ∷ text "route_rejected" ∷ [])

routing_passes :
    SuppressesUnknownRecipientErrorForPeerKeyRetry × ReportsUnknownRecipientErrorForEncryptedMessage
    × RouteAndFlushAcceptsMessageRouterImplementation × DeliveryTargetsCoverRecipientAndAckSender
unfolding SuppressesUnknownRecipientErrorForPeerKeyRetry
    ReportsUnknownRecipientErrorForEncryptedMessage RouteAndFlushAcceptsMessageRouterImplementation
    DeliveryTargetsCoverRecipientAndAckSender route_and_flush delivery_targets
    should_report_routing_error
routing_passes = (refl, refl, refl, (refl, refl))

flushing_passes :
    FlushOutboxesDrainsOnlyTargetClients × FlushOutboxesClosesSlowClientWhenOutboxIsFull
unfolding FlushOutboxesDrainsOnlyTargetClients FlushOutboxesClosesSlowClientWhenOutboxIsFull
    register_client flush_outboxes collect deliver_all send_events delivery_targets connect route
    drain_outbox recipient_for ack_for push_back Maps.get Maps.insert Maps.remove ClientId-discrete
    ℕ_discrete
flushing_passes = (
  (refl, refl, refl, refl, refl, refl, refl, refl, refl),
  (refl, refl, refl, refl, refl, refl, refl),
)

hook_passes : EventHookObservesConnectionLifecycle × EventHookObservesRouteSuccessAndError
unfolding EventHookObservesConnectionLifecycle EventHookObservesRouteSuccessAndError register_client
    unregister_client route_and_flush flush_outboxes collect deliver_all send_events
    delivery_targets connect disconnect route drain_outbox recipient_for ack_for push_back Maps.get
    Maps.insert Maps.remove ClientId-discrete ℕ_discrete
hook_passes = ((refl, refl), (refl, refl, refl, refl, refl))
