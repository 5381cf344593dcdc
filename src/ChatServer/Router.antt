-- ===== src/ChatServer/Router.antt =====
-- crates/chat-server/src/router.rs: an outbox for each connected client.
pub mod Contract
pub mod Delivery
use e2e_chat_rs.Prelude.{
  ℕ, Bool, true, false, Option, none, some, List, [], ◌∷◌, ◌++◌, ◌==◌, ◌!=◌, if◌then◌else◌, Result,
  ok, err,
}
use e2e_chat_rs.Prelude.Maps.{HashMap}
use e2e_chat_rs.Prelude.Maps
use e2e_chat_rs.ChatCore.Types.{ClientId, ClientId_eq}
use e2e_chat_rs.ChatCore.Event.{WireEvent, client_hello, peer_key, encrypted_message, ack, error}
use e2e_chat_rs.ChatCore.Service.{
  RouterError, client_already_connected, client_not_connected, sender_mismatch, unknown_recipient,
  unsupported_event, MessageRouter,
}

-- The front of a `VecDeque` is the head of its list.
pub record InMemoryRouter : Type 0 where
  pub outboxes : HashMap ClientId (List WireEvent)

-- `InMemoryRouter::default`
abbrev pub default : InMemoryRouter
default = record { outboxes = Maps.empty }

unfoldable pub connect : InMemoryRouter → ClientId → Result (Unit {0}) RouterError × InMemoryRouter
connect r client_id =
    if Maps.contains_key r.outboxes client_id
    then (err client_already_connected, r)
    else (ok tt, record { outboxes = Maps.insert r.outboxes client_id [] })

unfoldable pub disconnect :
    InMemoryRouter → ClientId → Result (Unit {0}) RouterError × InMemoryRouter
disconnect r client_id = elim (Maps.get r.outboxes client_id) [
  | some _ ↦ (ok tt, record { outboxes = Maps.remove r.outboxes client_id })
  | none ↦ (err client_not_connected, r)
]

unfoldable pub recipient_for : ClientId → WireEvent → Result ClientId RouterError
recipient_for connection_id (peer_key from to public_key) =
    if from != connection_id then err sender_mismatch else ok to
recipient_for connection_id (encrypted_message envelope) =
    if envelope.sender != connection_id then err sender_mismatch else ok envelope.recipient
recipient_for connection_id _ = err unsupported_event

unfoldable pub ack_for : WireEvent → Option WireEvent
ack_for (encrypted_message envelope) = some (ack envelope.message_id)
ack_for _ = none

-- `if let Some(outbox) = outboxes.get_mut(id) { outbox.push_back(event) }`
unfoldable pub push_back :
    HashMap ClientId (List WireEvent) → ClientId → WireEvent → HashMap ClientId (List WireEvent)
push_back outboxes client_id event = elim (Maps.get outboxes client_id) [
  | none ↦ outboxes
  | some outbox ↦ Maps.insert outboxes client_id (outbox ++ event ∷ [])
]

abbrev push_ack :
    HashMap ClientId (List WireEvent)
    → ClientId
    → Option WireEvent
    → HashMap ClientId (List WireEvent)
push_ack outboxes connection_id none = outboxes
push_ack outboxes connection_id (some event) = push_back outboxes connection_id event

unfoldable pub route :
    InMemoryRouter → ClientId → WireEvent → Result (Unit {0}) RouterError × InMemoryRouter
route r connection_id event =
    if Maps.contains_key r.outboxes connection_id
    then elim (recipient_for connection_id event) [
      | err e ↦ (err e, r)
      | ok recipient ↦
          if Maps.contains_key r.outboxes recipient
          then (
            ok tt,
            record {
              outboxes =
                  push_ack (push_back r.outboxes recipient event) connection_id (ack_for event);
            },
          )
          else (err unknown_recipient, r)
    ]
    else (err client_not_connected, r)

-- A drained outbox stays, empty.
unfoldable pub drain_outbox : InMemoryRouter → ClientId → List WireEvent × InMemoryRouter
drain_outbox r client_id = elim (Maps.get r.outboxes client_id) [
  | none ↦ ([], r)
  | some outbox ↦ (outbox, record { outboxes = Maps.insert r.outboxes client_id [] })
]

-- `impl MessageRouter for InMemoryRouter`
abbrev pub in_memory : MessageRouter InMemoryRouter
in_memory = record {
  connect = connect;
  disconnect = disconnect;
  route = route;
  drain_outbox = drain_outbox;
}
