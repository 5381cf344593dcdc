-- ===== src/ChatServer/Ws.antt =====
-- crates/chat-server/src/ws.rs: the relay's shared state and the steps of a connection's task. Each
-- function of one `lock` is one atomic step; functions that take several locks are their sequence.
pub mod Socket
pub mod Serving
pub mod Tracking
pub mod Presence
pub mod Takeover
pub mod Slow
pub mod Bounded
pub mod Delivering
pub mod System
pub mod Addressed
pub mod Overtaking
use e2e_chat_rs.Prelude.{
  ℕ, ◌*◌, Bool, true, false, not, Option, none, some, List, [], ◌∷◌, ◌++◌, if◌then◌else◌, Result,
  ok, err,
}
use e2e_chat_rs.Prelude.Maps.{HashMap}
use e2e_chat_rs.Prelude.Maps
use e2e_chat_rs.ChatCore.Types.{ClientId, ClientId_eq}
use e2e_chat_rs.ChatCore.Event.{WireEvent, client_hello, peer_key, encrypted_message, ack, error}
use e2e_chat_rs.ChatCore.Service.{
  RouterError, unknown_recipient, MessageRouter, EventHook, AuthProvider, NoopEventHook,
  NoopAuthProvider, noop_event_hook, noop_auth_provider,
}
use e2e_chat_rs.ChatServer.Router.{InMemoryRouter}
use e2e_chat_rs.ChatServer.Router

-- `MAX_EVENT_BYTES`, `OUTBOX_CAPACITY`
abbrev pub max_event_bytes : ℕ
max_event_bytes = 64 * 1024

abbrev pub outbox_capacity : ℕ
outbox_capacity = 256

-- The two channels of tokio's `mpsc` that a connection has, as the server uses them: `S` holds the
-- contents of all channels, and a handle names a connection's pair.
pub record Channels (S Handle : Type 0) : Type 0 where
  -- `events.try_send(event)`: whether there was room
  pub try_send : Handle → WireEvent → S → Bool × S
  -- `close.send(())`
  pub send_close : Handle → S → S
  -- `event_receiver.recv()`, where it does not wait
  pub recv : Handle → S → Option WireEvent × S
  -- `event_receiver` is dropped with the writer that owns it
  pub drop_receiver : Handle → S → S

pub record ServerState (R H A S Handle : Type 0) : Type 0 where
  pub router : R
  pub hook : H
  pub auth : A
  pub auth_locked : Bool  -- a task holds the lock of `auth`
  pub connections : HashMap ClientId Handle
  pub channels : S

-- `WsServer`, without its listener
pub record WsServer (R H A : Type 0) : Type 0 where
  pub router : R
  pub hook : H
  pub auth : A

abbrev pub new_server : WsServer InMemoryRouter NoopEventHook NoopAuthProvider
new_server = record { router = Router.default; hook = noop_event_hook; auth = noop_auth_provider }

abbrev pub with_router : {R H A R' : Type 0} → WsServer R H A → R' → WsServer R' H A
with_router s router = record { router = router; hook = s.hook; auth = s.auth }

abbrev pub with_hook : {R H A H' : Type 0} → WsServer R H A → H' → WsServer R H' A
with_hook s hook = record { router = s.router; hook = hook; auth = s.auth }

abbrev pub with_auth_provider : {R H A A' : Type 0} → WsServer R H A → A' → WsServer R H A'
with_auth_provider s auth = record { router = s.router; hook = s.hook; auth = auth }

-- `ServerState::new`
abbrev pub new_state : {R H A S Handle : Type 0} → WsServer R H A → S → ServerState R H A S Handle
new_state s channels = record {
  router = s.router;
  hook = s.hook;
  auth = s.auth;
  auth_locked = false;
  connections = Maps.empty;
  channels = channels;
}

unfoldable pub should_report_routing_error : WireEvent → RouterError → Bool
should_report_routing_error (peer_key from to public_key) unknown_recipient = false
should_report_routing_error _ _ = true

unfoldable pub delivery_targets : ClientId → WireEvent → List ClientId
delivery_targets connection_id (peer_key from to public_key) = to ∷ []
delivery_targets connection_id (encrypted_message envelope) =
    envelope.recipient ∷ connection_id ∷ []
delivery_targets connection_id _ = []

pub record OutboxDelivery (Handle : Type 0) : Type 0 where
  pub handle : Handle
  pub client_id : ClientId
  pub events : List WireEvent

-- The part of `flush_outboxes` under the locks: the outboxes of the connected targets, in order.
module _ {R Handle : Type 0} (router : MessageRouter R) where
  unfoldable pub collect :
      HashMap ClientId Handle → List ClientId → R → List (OutboxDelivery Handle) × R
  collect connections [] r = ([], r)
  collect connections (id ∷ ids) r = elim (Maps.get connections id) [
    | none ↦ collect connections ids r
    | some handle ↦
        let drained = router.drain_outbox r id in
        let rest = collect connections ids drained.1 in
        (
          elim drained.0 [
            | [] ↦ rest.0
            | event ∷ events ↦
                record { handle = handle; client_id = id; events = event ∷ events } ∷ rest.0
          ],
          rest.1,
        )
  ]

module _ {R H A S Handle : Type 0} (channels : Channels S Handle) where
  -- One delivery, an event after the other; at a full queue the connection is told to close and is
  -- taken off the map, and the rest is dropped.
  unfoldable pub send_events :
      Handle → ClientId → List WireEvent → ServerState R H A S Handle → ServerState R H A S Handle
  send_events handle id [] s = s
  send_events handle id (event ∷ events) s =
      let tried = channels.try_send handle event s.channels in
      elim tried.0 [
        | true ↦ send_events handle id events (record s { channels = tried.1 })
        | false ↦ record s {
          channels = channels.send_close handle tried.1;
          connections = Maps.remove s.connections id;
        }
      ]

  unfoldable pub deliver_all :
      List (OutboxDelivery Handle) → ServerState R H A S Handle → ServerState R H A S Handle
  unfolding send_events
  deliver_all [] s = s
  deliver_all (d ∷ ds) s = deliver_all ds (send_events d.handle d.client_id d.events s)

module _ {R H A S Handle : Type 0} (router : MessageRouter R) (hook : EventHook H) where
  unfoldable pub register_client :
      ClientId
      → Handle
      → ServerState R H A S Handle
      → Result (Unit {0}) (Unit {0}) × ServerState R H A S Handle
  register_client client_id handle s =
      let connected = router.connect s.router client_id in
      elim connected.0 [
        | err _ ↦ (err tt, record s { router = connected.1 })
        | ok _ ↦ (
          ok tt,
          record s {
            router = connected.1;
            connections = Maps.insert s.connections client_id handle;
            hook = hook.on_connect s.hook client_id;
          },
        )
      ]

  unfoldable pub unregister_client :
      ClientId → ServerState R H A S Handle → ServerState R H A S Handle
  unregister_client client_id s =
      let disconnected = router.disconnect s.router client_id in
      record s {
        connections = Maps.remove s.connections client_id;
        router = disconnected.1;
        hook = elim disconnected.0 [ ok _ ↦ hook.on_disconnect s.hook client_id | err _ ↦ s.hook ];
      }

module _ {R H A S Handle : Type 0} (router : MessageRouter R) (hook : EventHook H)
    (channels : Channels S Handle) where
  unfoldable pub flush_outboxes :
      List ClientId → ServerState R H A S Handle → ServerState R H A S Handle
  unfolding collect deliver_all
  flush_outboxes targets s =
      let collected = collect router s.connections targets s.router in
      deliver_all channels collected.0 (record s { router = collected.1 })

  unfoldable pub route_and_flush :
      ClientId
      → WireEvent
      → ServerState R H A S Handle
      → Result (Unit {0}) RouterError × ServerState R H A S Handle
  unfolding flush_outboxes delivery_targets
  route_and_flush connection_id event s =
      let routed = router.route s.router connection_id event in
      elim routed.0 [
        | ok _ ↦ (
          ok tt,
          flush_outboxes (delivery_targets connection_id event) (record s {
            router = routed.1;
            hook = hook.on_route_accepted s.hook connection_id event;
          }),
        )
        | err e ↦ (
          err e,
          record s {
            router = routed.1;
            hook = hook.on_route_rejected s.hook connection_id event e;
          },
        )
      ]
