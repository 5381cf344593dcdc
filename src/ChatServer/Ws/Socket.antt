-- ===== src/ChatServer/Ws/Socket.antt =====
-- crates/chat-server/src/ws.rs: `handle_socket`, the task of one connection. What the socket yields
-- is a value of `Incoming`, and a text's JSON is decoded by a parameter. The task's turns stand
-- between turns of other tasks, so each takes the shared state that it finds.
use e2e_chat_rs.Prelude.{
  ℕ, Bool, true, false, Option, none, some, List, [], ◌∷◌, ◌++◌, if◌then◌else◌, ok, err, text,
}
use e2e_chat_rs.ChatCore.Types.{ClientId}
use e2e_chat_rs.ChatCore.Event.{WireEvent, client_hello, error}
use e2e_chat_rs.ChatCore.Service.{
  AuthError, connect_denied, RouterError, client_already_connected, client_not_connected,
  sender_mismatch, unknown_recipient, unsupported_event, MessageRouter, EventHook, AuthProvider,
  router_error_code, auth_error_code,
}
use e2e_chat_rs.ChatServer.Ws.{
  Channels, ServerState, register_client, unregister_client, route_and_flush,
  should_report_routing_error,
}

-- What `socket_receiver.next()` yields before its end: a text, another kind of message, or a
-- protocol error.
pub data Incoming : Type 0 where
  text_message : (raw : List ℕ) → Incoming
  other_message protocol_error : Incoming

-- `RouterError`'s derived `Debug`
unfoldable pub debug_name : RouterError → List ℕ
debug_name client_already_connected = text "ClientAlreadyConnected"
debug_name client_not_connected = text "ClientNotConnected"
debug_name sender_mismatch = text "SenderMismatch"
debug_name unknown_recipient = text "UnknownRecipient"
debug_name unsupported_event = text "UnsupportedEvent"

unfoldable pub routing_failed : RouterError → WireEvent
routing_failed e = error (router_error_code e) (text "routing failed: " ++ debug_name e)

-- What `reject_connection` sends.
unfoldable pub rejection : AuthError → WireEvent
rejection connect_denied =
    error (auth_error_code connect_denied) (text "connect rejected: client connect was denied")

-- How a connection starts: it ends before it is registered, perhaps with an answer, or it goes on
-- as a client.
pub data Opening : Type 0 where
  ended : Opening
  refused : (answer : WireEvent) → Opening
  serving : (client_id : ClientId) → Opening

-- What wakes the loop of `handle_socket`: its close channel, or the next of the socket.
pub data Wake : Type 0 where
  close_received : Wake
  received : Option Incoming → Wake

module _ (from_str : List ℕ → Option WireEvent) where
  -- The identity that the connection announces, and what is left to read.
  unfoldable pub read_client_hello : List Incoming → Option ClientId × List Incoming
  read_client_hello [] = (none, [])
  read_client_hello (protocol_error ∷ ms) = (none, ms)
  read_client_hello (other_message ∷ ms) = read_client_hello ms
  read_client_hello (text_message raw ∷ ms) =
      let rest = read_client_hello ms in
      elim (from_str raw) [ some (client_hello client_id _) ↦ (some client_id, ms) | _ ↦ rest ]

module _ {R H A S Handle : Type 0} (router : MessageRouter R) (hook : EventHook H)
    (auth : AuthProvider A) where
  -- `handle_socket` before its loop, with what `read_client_hello` returned.
  unfoldable pub open_connection :
      Option ClientId → Handle → ServerState R H A S Handle → Opening × ServerState R H A S Handle
  unfolding register_client
  open_connection none handle s = (ended, s)
  open_connection (some client_id) handle s =
      let authorized = auth.authorize_connect s.auth client_id in
      elim authorized.0 [
        | err e ↦ (refused (rejection e), record s { auth = authorized.1 })
        | ok _ ↦
            let registered =
              register_client router hook client_id handle (record s { auth = authorized.1 }) in
            elim registered.0 [
              | err _ ↦ (ended, registered.1)
              | ok _ ↦ (serving client_id, registered.1)
            ]
      ]

module _ {R H A S Handle : Type 0} (router : MessageRouter R) (hook : EventHook H)
    (channels : Channels S Handle) (from_str : List ℕ → Option WireEvent) where
  unfoldable pub on_event :
      ClientId → Handle → WireEvent → ServerState R H A S Handle → ServerState R H A S Handle
  unfolding route_and_flush should_report_routing_error
  on_event client_id handle event s =
      let routed = route_and_flush router hook channels client_id event s in
      elim routed.0 [
        | ok _ ↦ routed.1
        | err e ↦
            if should_report_routing_error event e
            then record (routed.1) {
              channels = (channels.try_send handle (routing_failed e) (routed.1).channels).1;
            }
            else routed.1
      ]

  -- One turn of the loop: whether it goes on, and the state. The turn that ends it unregisters.
  unfoldable pub turn :
      ClientId → Handle → Wake → ServerState R H A S Handle → Bool × ServerState R H A S Handle
  unfolding on_event unregister_client
  turn client_id handle (received (some (text_message raw))) s = elim (from_str raw) [
    | none ↦ (true, s)
    | some event ↦ (true, on_event client_id handle event s)
  ]
  turn client_id handle (received (some other_message)) s = (true, s)
  turn client_id handle _ s = (false, unregister_client router hook client_id s)

  -- The loop, over what wakes it, up to the turn that ends it.
  unfoldable pub run_turns :
      ClientId → Handle → List Wake → ServerState R H A S Handle → Bool × ServerState R H A S Handle
  unfolding turn
  run_turns client_id handle [] s = (true, s)
  run_turns client_id handle (wake ∷ wakes) s =
      let woken = turn client_id handle wake s in
      elim woken.0 [ true ↦ run_turns client_id handle wakes woken.1 | false ↦ (false, woken.1) ]

module _ {R H A S Handle : Type 0} (router : MessageRouter R) (hook : EventHook H)
    (auth : AuthProvider A) (channels : Channels S Handle)
    (from_str : List ℕ → Option WireEvent) where
  -- A connection that no other interrupts, with what its socket yields before the hello is found
  -- and what wakes its loop afterwards: whether it is still served, and the state.
  unfoldable pub handle_socket :
      List Incoming
      → List Wake
      → Handle
      → ServerState R H A S Handle
      → Bool × ServerState R H A S Handle
  unfolding read_client_hello open_connection run_turns
  handle_socket messages wakes handle s =
      let opening =
        open_connection router hook auth (read_client_hello from_str messages).0 handle s in
      elim opening.0 [
        | serving client_id ↦
            run_turns router hook channels from_str client_id handle wakes opening.1
        | _ ↦ (false, opening.1)
      ]

module _ {W : Type 0} (to_string : WireEvent → Option (List ℕ)) (send : W → List ℕ → Bool × W) where
  -- The writer task, over the events that it receives and up to where its socket fails.
  unfoldable pub writer : List WireEvent → W → W
  writer [] socket = socket
  writer (event ∷ events) socket = elim (to_string event) [
    | none ↦ writer events socket
    | some raw ↦ elim (send socket raw).0 [
      | true ↦ writer events (send socket raw).1
      | false ↦ (send socket raw).1
    ]
  ]
