-- ===== src/ChatServer/Router/Contract.antt =====
-- What a `MessageRouter` promises, over the view that gives each client its outbox, and
-- `InMemoryRouter` against it.
use e2e_chat_rs.Prelude.{
  ◌≡◌, refl, Option, none, some, List, [], ◌∷◌, ◌++◌, ◌==◌, if◌then◌else◌, Result, ok, err, arith,
  Option-cases, inl, inr,
}
use mathlib.Core.Option
use mathlib.Core.List.{append-nil, append_assoc}
use e2e_chat_rs.Prelude.Maps
use e2e_chat_rs.Prelude.Maps.{map_laws}
use e2e_chat_rs.ChatCore.Types.{ClientId, ClientId_eq}
use e2e_chat_rs.ChatCore.Event.{WireEvent, peer_key, encrypted_message, ack}
use e2e_chat_rs.ChatCore.Service.{
  RouterError, client_already_connected, client_not_connected, sender_mismatch, unknown_recipient,
  unsupported_event, MessageRouter,
}
use e2e_chat_rs.ChatServer.Router.{
  InMemoryRouter, in_memory, connect, disconnect, route, drain_outbox, recipient_for, ack_for,
  push_back, HashMap,
}

-- Who is connected, and what waits for each.
abbrev pub View : Type 0
View = ClientId → Option (List WireEvent)

abbrev pub update : View → ClientId → Option (List WireEvent) → View
update v id outbox j = if id == j then outbox else v j

-- Whom an event names as its sender and as its recipient, if it can be routed.
abbrev pub route_of : WireEvent → Option (ClientId × ClientId)
route_of (peer_key from to public_key) = some (from, to)
route_of (encrypted_message envelope) = some (envelope.sender, envelope.recipient)
route_of _ = none

-- What an accepted event adds to the outbox of a client: the event itself for its recipient, then
-- the acknowledgement of a message for its sender.
abbrev pub delivered : WireEvent → ClientId → List WireEvent
delivered (peer_key from to public_key) j = if to == j then peer_key from to public_key ∷ [] else []
delivered (encrypted_message envelope) j =
    (if envelope.recipient == j then encrypted_message envelope ∷ [] else [])
    ++ (if envelope.sender == j then ack envelope.message_id ∷ [] else [])
delivered _ j = []

abbrev pub enqueue : View → WireEvent → View
enqueue v event j = elim (v j) [ none ↦ none | some outbox ↦ some (outbox ++ delivered event j) ]

abbrev pub connect_view : View → ClientId → Result (Unit {0}) RouterError × View
connect_view v id = elim (v id) [
  | none ↦ (ok tt, update v id (some []))
  | some _ ↦ (err client_already_connected, v)
]

abbrev pub disconnect_view : View → ClientId → Result (Unit {0}) RouterError × View
disconnect_view v id = elim (v id) [
  | none ↦ (err client_not_connected, v)
  | some _ ↦ (ok tt, update v id none)
]

abbrev route_between :
    View
    → ClientId
    → WireEvent
    → Option (ClientId × ClientId)
    → Result (Unit {0}) RouterError × View
route_between v id event none = (err unsupported_event, v)
route_between v id event (some (sender, recipient)) =
    if sender == id
    then elim (v recipient) [
      | none ↦ (err unknown_recipient, v)
      | some _ ↦ (ok tt, enqueue v event)
    ]
    else (err sender_mismatch, v)

abbrev pub route_view : View → ClientId → WireEvent → Result (Unit {0}) RouterError × View
route_view v id event = elim (v id) [
  | none ↦ (err client_not_connected, v)
  | some _ ↦ route_between v id event (route_of event)
]

abbrev pub drain_view : View → ClientId → List WireEvent × View
drain_view v id = elim (v id) [ none ↦ ([], v) | some outbox ↦ (outbox, update v id (some [])) ]

-- A result and a view are those of the specification.
abbrev Agrees : {A R : Type 0} → (R → View) → A × R → A × View → Type 0
Agrees view (a, r) (b, v) = (a ≡ b) × ((j : ClientId) → view r j ≡ v j)

pub record Implements {R : Type 0} (m : MessageRouter R) (view : R → View) : Type 0 where
  pub connects : (r : R) (id : ClientId) → Agrees view (m.connect r id) (connect_view (view r) id)
  pub disconnects :
      (r : R) (id : ClientId) → Agrees view (m.disconnect r id) (disconnect_view (view r) id)
  pub routes :
      (r : R) (id : ClientId) (event : WireEvent)
      → Agrees view (m.route r id event) (route_view (view r) id event)
  pub drains : (r : R) (id : ClientId) → Agrees view (m.drain_outbox r id) (drain_view (view r) id)

abbrev pub view : InMemoryRouter → View
view r id = Maps.get r.outboxes id

connect-Agrees :
    (r : InMemoryRouter) (id : ClientId) → Agrees view (connect r id) (connect_view (view r) id)
unfolding connect
connect-Agrees r id = (ground arith, λ j. ground (arith, Maps.get-insert r.outboxes id j []))

disconnect-Agrees :
    (r : InMemoryRouter) (id : ClientId)
    → Agrees view (disconnect r id) (disconnect_view (view r) id)
unfolding disconnect
disconnect-Agrees r id = (ground arith, λ j. ground (arith, Maps.get-remove r.outboxes id j))

drain_outbox-Agrees :
    (r : InMemoryRouter) (id : ClientId) → Agrees view (drain_outbox r id) (drain_view (view r) id)
unfolding drain_outbox
drain_outbox-Agrees r id = (ground arith, λ j. ground (arith, Maps.get-insert r.outboxes id j []))

-- One push, in every outbox.
abbrev pushed : ClientId → WireEvent → ClientId → List WireEvent
pushed id event j = if id == j then event ∷ [] else []

get-push_back :
    (o : HashMap ClientId (List WireEvent)) (id j : ClientId) (event : WireEvent)
    → Maps.get (push_back o id event) j
      ≡ Option.map (λ outbox. outbox ++ pushed id event j) (Maps.get o j)
unfolding push_back
get-push_back o id j event = elim (Option-cases (Maps.get o j)) [
  | inl none_there ↦ elim (Option-cases (Maps.get o id)) [
    | inl h ↦ ground arith
    | inr (box, h) ↦ ground (arith, Maps.get-insert o id j (box ++ event ∷ []))
  ]
  | inr (q, there) ↦ elim (Option-cases (Maps.get o id)) [
    | inl h ↦ ground (arith, append-nil q)
    | inr (box, h) ↦ ground (arith, append-nil q, Maps.get-insert o id j (box ++ event ∷ []))
  ]
]

map-append_twice :
    (o : Option (List WireEvent)) (xs ys : List WireEvent)
    → Option.map (λ q. q ++ ys) (Option.map (λ q. q ++ xs) o) ≡ Option.map (λ q. q ++ (xs ++ ys)) o
map-append_twice none xs ys = refl
map-append_twice (some q) xs ys = rw append_assoc

get-push_back_twice :
    (o : HashMap ClientId (List WireEvent)) (a b j : ClientId) (x y : WireEvent)
    → Maps.get (push_back (push_back o a x) b y) j
      ≡ Option.map (λ outbox. outbox ++ (pushed a x j ++ pushed b y j)) (Maps.get o j)
get-push_back_twice o a b j x y =
    rw (get-push_back (push_back o a x) b j y, get-push_back o a j x)
      (map-append_twice (Maps.get o j) (pushed a x j) (pushed b y j))

route-Agrees :
    (r : InMemoryRouter) (id : ClientId) (event : WireEvent)
    → Agrees view (route r id event) (route_view (view r) id event)
unfolding route recipient_for ack_for
route-Agrees r id (peer_key from to key) =
    (ground arith, λ j. ground (arith, get-push_back r.outboxes to j (peer_key from to key)))
route-Agrees r id (encrypted_message envelope) = (
  ground arith,
  λ j. ground (
    arith,
    get-push_back_twice r.outboxes envelope.recipient id j (encrypted_message envelope)
        (ack envelope.message_id),
  ),
)
route-Agrees r id _ = (ground arith, λ j. ground arith)

-- The in-memory router implements the specification of a message router over the view that gives
-- each client its outbox: connect, disconnect, route and drain return on every branch what the
-- specification returns, and leave every outbox as the specification leaves it.
pub in_memory-Implements : Implements in_memory view
in_memory-Implements = record {
  connects = connect-Agrees;
  disconnects = disconnect-Agrees;
  routes = route-Agrees;
  drains = drain_outbox-Agrees;
}
