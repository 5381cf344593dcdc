-- ===== src/Tests/Units/Sockets.antt =====
-- The integration tests of crates/chat-server/tests/ws_relay.rs: connections whose turns come one after
-- the other. The text `n` is the `n`-th event of a list, and what a client receives is what its
-- channel holds.
use e2e_chat_rs.ChatCore.Nonce.{mark_seen}
use e2e_chat_rs.ChatCore.Crypto.Cipher.{
  encrypt, decrypt, next_nonce, cipher_for, associated_data_for, open_envelope, accepts_epoch,
  mark_inbound,
}
use e2e_chat_rs.Tests.Toy.{toy}
use e2e_chat_rs.Tests.Units.Sessions.{Expect}
use e2e_chat_rs.Prelude.{
  ℕ, zero, suc, ◌≡◌, refl, ℕ_discrete, List, [], ◌∷◌, Option, none, some, ok, err, text, replicate,
  false,
}
use e2e_chat_rs.Prelude.Maps
use e2e_chat_rs.ChatCore.Types.{ClientId, ClientId-discrete, ClientId_eq, NonceBytes-discrete}
use e2e_chat_rs.ChatCore.Event.{
  WireEvent, client_hello, peer_key, encrypted_message, ack, EncryptedEnvelope,
}
use e2e_chat_rs.ChatCore.Service.{
  AuthProvider, connect_denied, unsupported_event, noop_auth, noop_hook, MessageRouter, EventHook,
}
use e2e_chat_rs.ChatServer.Router.{
  in_memory, connect, disconnect, route, drain_outbox, recipient_for, ack_for, push_back,
}
use e2e_chat_rs.ChatServer.Ws.{
  ServerState, new_state, new_server, with_router, with_auth_provider, route_and_flush,
  flush_outboxes, delivery_targets, collect, deliver_all, send_events, register_client,
  unregister_client, should_report_routing_error,
}
use e2e_chat_rs.ChatServer.Ws.Socket.{
  Wake, received, text_message, protocol_error, open_connection, turn, on_event, read_client_hello,
  routing_failed, rejection, refused, Opening,
}
use e2e_chat_rs.Tests.Units.Relay.{
  Contents, nothing, wide, rejecting_router, recording_hook, recording, empty_state, State,
}
use e2e_chat_rs.Tests.Units.Router.{key_from, message_of}
use e2e_chat_rs.ChatCore.Crypto.Session.{new, generate}
use e2e_chat_rs.ChatCore.Crypto.Info.{session_info, nonce_prefix, str_le}
use e2e_chat_rs.Prelude.Words.{to_be_bytes}
use e2e_chat_rs.Tests.Core.{alice, bob, message, alice_session, bob_session}

-- `serde_json::from_str`, on the texts of a test
abbrev from_str : List WireEvent → List ℕ → Option WireEvent
from_str (event ∷ events) (zero ∷ []) = some event
from_str (event ∷ events) (suc n ∷ []) = from_str events (n ∷ [])
from_str _ _ = none

abbrev hello : ClientId → WireEvent
hello id = client_hello id (record { bytes = replicate 32 1 })

abbrev sends : ℕ → Wake
sends n = received (some (text_message (n ∷ [])))

module _ {R H A : Type 0} (router : MessageRouter R) (hook : EventHook H) (auth : AuthProvider A)
    (events : List WireEvent) where
  -- A client connects and sends its hello, the `n`-th event.
  abbrev opened : ℕ → ℕ → ServerState R H A Contents ℕ → Opening × ServerState R H A Contents ℕ
  opened n h s =
      open_connection router hook auth
        (read_client_hello (from_str events) (text_message (n ∷ []) ∷ [])).0 h s

  abbrev woken : ClientId → ℕ → Wake → ServerState R H A Contents ℕ → ServerState R H A Contents ℕ
  woken id h wake s = (turn router hook wide (from_str events) id h wake s).1

abbrev key_events : List WireEvent
key_events = hello alice ∷ hello bob ∷ key_from alice 1 ∷ []

abbrev RelaysKey : State → Type 0
RelaysKey s =
    let one = opened in_memory noop_hook noop_auth key_events 0 0 s in
    let two = opened in_memory noop_hook noop_auth key_events 1 1 one.1 in
    let sent = woken in_memory noop_hook noop_auth key_events alice 0 (sends 2) two.1 in
    sent.channels.queue 1 ≡ key_from alice 1 ∷ []

RelaysPeerKeyBetweenConnectedClients : Type 0
RelaysPeerKeyBetweenConnectedClients = RelaysKey empty_state

ServesRelayThroughDefaultBuilder : Type 0
ServesRelayThroughDefaultBuilder = RelaysKey (new_state new_server nothing)

abbrev chat_events : EncryptedEnvelope → List WireEvent
chat_events encrypted =
    hello alice
    ∷ hello bob
    ∷ key_from alice 1
    ∷ peer_key bob alice (record { bytes = [] })
    ∷ encrypted_message encrypted
    ∷ []

RelaysEncryptedMessageAndAckBetweenConnectedClients : Type 0
RelaysEncryptedMessageAndAckBetweenConnectedClients =
    Expect (encrypt toy (message 1) (text "hello bob") alice_session).0 (λ encrypted.
      let events = chat_events encrypted in
      let one = opened in_memory noop_hook noop_auth events 0 0 empty_state in
      let two = opened in_memory noop_hook noop_auth events 1 1 one.1 in
      let key = woken in_memory noop_hook noop_auth events alice 0 (sends 2) two.1 in
      let keys = woken in_memory noop_hook noop_auth events bob 1 (sends 3) key in
      let sent = woken in_memory noop_hook noop_auth events alice 0 (sends 4) keys in
      (sent.channels.queue 1 ≡ key_from alice 1 ∷ encrypted_message encrypted ∷ [])
      × (sent.channels.queue 0 ≡ peer_key bob alice (record { bytes = [] }) ∷ ack (message 1) ∷ [])
      × ((decrypt toy encrypted bob_session).0 ≡ ok (text "hello bob")))

BuilderInjectsCustomHookObservingLifecycle : Type 0
BuilderInjectsCustomHookObservingLifecycle =
    let one = opened in_memory recording_hook noop_auth key_events 0 0 recording in
    let two = opened in_memory recording_hook noop_auth key_events 1 1 one.1 in
    let sent = woken in_memory recording_hook noop_auth key_events alice 0 (sends 2) two.1 in
    let left = woken in_memory recording_hook noop_auth key_events alice 0 (received none) sent in
    let gone = woken in_memory recording_hook noop_auth key_events bob 1 (received none) left in
    gone.hook
    ≡ text "connect"
      ∷ text "connect"
      ∷ text "route_accepted"
      ∷ text "disconnect"
      ∷ text "disconnect"
      ∷ []

abbrev message_events : List WireEvent
message_events = hello alice ∷ message_of 7 (1 ∷ 2 ∷ 3 ∷ []) ∷ []

BuilderInjectsCustomRouterAndReportsRejection : Type 0
BuilderInjectsCustomRouterAndReportsRejection =
    let one =
      opened rejecting_router noop_hook noop_auth message_events 0 0
        (new_state (with_router new_server tt) nothing) in
    let sent = woken rejecting_router noop_hook noop_auth message_events alice 0 (sends 1) one.1 in
    sent.channels.queue 0 ≡ routing_failed unsupported_event ∷ []

abbrev deny_all_auth_provider : AuthProvider (Unit {0})
deny_all_auth_provider = record { authorize_connect = λ a client_id. (err connect_denied, a) }

BuilderInjectsAuthProviderAndRejectsDeniedClients : Type 0
BuilderInjectsAuthProviderAndRejectsDeniedClients =
    (opened in_memory noop_hook deny_all_auth_provider message_events 0 0
      (new_state (with_auth_provider new_server tt) nothing)).0
    ≡ refused (rejection connect_denied)

-- The WebSocket library reports an oversized message as a protocol error.
ClosesConnectionOnOversizedMessage : Type 0
ClosesConnectionOnOversizedMessage =
    let one = opened in_memory noop_hook noop_auth key_events 0 0 empty_state in
    let closed =
      turn in_memory noop_hook wide (from_str key_events) alice 0 (received (some protocol_error))
        one.1 in
    (closed.0 ≡ false) × (Maps.get (closed.1).connections alice ≡ none)

relay_passes :
    RelaysPeerKeyBetweenConnectedClients × ServesRelayThroughDefaultBuilder
    × BuilderInjectsCustomHookObservingLifecycle × BuilderInjectsCustomRouterAndReportsRejection
    × BuilderInjectsAuthProviderAndRejectsDeniedClients × ClosesConnectionOnOversizedMessage
unfolding RelaysPeerKeyBetweenConnectedClients ServesRelayThroughDefaultBuilder
    BuilderInjectsCustomHookObservingLifecycle BuilderInjectsCustomRouterAndReportsRejection
    BuilderInjectsAuthProviderAndRejectsDeniedClients ClosesConnectionOnOversizedMessage
    open_connection turn on_event read_client_hello routing_failed rejection register_client
    unregister_client route_and_flush flush_outboxes collect deliver_all send_events
    delivery_targets should_report_routing_error connect disconnect route drain_outbox recipient_for
    ack_for push_back Maps.get Maps.insert Maps.remove ClientId-discrete ℕ_discrete
relay_passes = (refl, refl, refl, refl, refl, (refl, refl))

message_passes : RelaysEncryptedMessageAndAckBetweenConnectedClients
unfolding RelaysEncryptedMessageAndAckBetweenConnectedClients open_connection turn on_event
    read_client_hello register_client route_and_flush flush_outboxes collect deliver_all send_events
    delivery_targets connect route drain_outbox recipient_for ack_for push_back Maps.get Maps.insert
    ClientId-discrete ℕ_discrete toy session_info str_le to_be_bytes generate nonce_prefix new
    encrypt decrypt next_nonce cipher_for associated_data_for open_envelope accepts_epoch
    mark_inbound mark_seen NonceBytes-discrete
message_passes = (refl, refl, refl)
