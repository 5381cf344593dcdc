-- ===== src/ChatServer/Ws/Tracking.antt =====
-- The connection map of ws.rs against the clients of its router.
use e2e_chat_rs.Prelude.{
  ℕ, ◌≡◌, Bool, true, false, Option, none, some, List, [], ◌∷◌, arith, Result-cases, inl, inr,
  Option-cases,
}
use e2e_chat_rs.Prelude.Maps
use e2e_chat_rs.Prelude.Maps.{HashMap}
use e2e_chat_rs.ChatCore.Types.{ClientId, ClientId_eq}
use e2e_chat_rs.ChatCore.Event.{WireEvent}
use e2e_chat_rs.ChatCore.Service.{MessageRouter, EventHook, AuthProvider}
use e2e_chat_rs.ChatServer.Router.Contract.{View, Implements}
use e2e_chat_rs.ChatServer.Ws.{
  WsServer, new_state, Channels, ServerState, OutboxDelivery, collect, send_events, deliver_all,
  register_client, unregister_client, flush_outboxes, route_and_flush, delivery_targets,
}
use e2e_chat_rs.ChatServer.Ws.Socket.{
  Wake, open_connection, on_event, turn, received, text_message, other_message,
}

abbrev pub is_there : {A : Type 0} → Option A → Bool
is_there none = false
is_there (some _) = true

-- Every client with a handle is one of the router's.
abbrev pub Tracked : {R H A S Handle : Type 0} → (R → View) → ServerState R H A S Handle → Type 0
Tracked view s =
    (id : ClientId)
    → is_there (Maps.get s.connections id) ≡ true
    → is_there (view s.router id) ≡ true

pub new_state-Tracked :
    {R H A S : Type 0} (Handle : Type 0) (view : R → View) (server : WsServer R H A) (channels : S)
    → Tracked view (new_state {Handle = Handle} server channels)
unfolding Maps.get
new_state-Tracked Handle view server channels id there = cc

-- The router of the second state has every client of the first's.
abbrev Holds : {R : Type 0} → (R → View) → R → R → Type 0
Holds view r r' = (id : ClientId) → is_there (view r id) ≡ true → is_there (view r' id) ≡ true

module _ {R : Type 0} (m : MessageRouter R) (view : R → View) (law : Implements m view) where
  route-Holds : (r : R) (id : ClientId) (event : WireEvent) → Holds view r (m.route r id event).1
  route-Holds r id event j h = ground (arith, (law.routes r id event).1 j)

  drain_outbox-Holds : (r : R) (id : ClientId) → Holds view r (m.drain_outbox r id).1
  drain_outbox-Holds r id j h = ground (arith, (law.drains r id).1 j)

  collect-Holds :
      {Handle : Type 0} (connections : HashMap ClientId Handle) (ids : List ClientId) (r : R)
      → Holds view r (collect m connections ids r).1
  unfolding collect
  collect-Holds connections [] r j h = h
  collect-Holds connections (id ∷ ids) r j h = ground (
    arith,
    collect-Holds connections ids r j,
    collect-Holds connections ids (m.drain_outbox r id).1 j,
    drain_outbox-Holds r id j,
  )

module _ {R H A S Handle : Type 0} (view : R → View) (channels : Channels S Handle) where
  send_events-Tracked :
      (handle : Handle) (id : ClientId) (events : List WireEvent) (s : ServerState R H A S Handle)
      → Tracked view s
      → Tracked view (send_events channels handle id events s)
  unfolding send_events
  send_events-Tracked handle id [] s h j there = h j there
  send_events-Tracked handle id (event ∷ events) s h j there = ground (
    arith,
    send_events-Tracked handle id events
        (record s { channels = (channels.try_send handle event s.channels).1 }) h j,
    Maps.get-remove s.connections id j,
    h j,
  )

  deliver_all-Tracked :
      (ds : List (OutboxDelivery Handle)) (s : ServerState R H A S Handle)
      → Tracked view s
      → Tracked view (deliver_all channels ds s)
  unfolding deliver_all
  deliver_all-Tracked [] s h = h
  deliver_all-Tracked (d ∷ ds) s h =
      deliver_all-Tracked ds _ (send_events-Tracked d.handle d.client_id d.events s h)

module _ {R H A S Handle : Type 0} (m : MessageRouter R) (hook : EventHook H)
    (auth : AuthProvider A) (channels : Channels S Handle) (from_str : List ℕ → Option WireEvent)
    (view : R → View) (law : Implements m view) where
  pub register_client-Tracked :
      (id : ClientId) (handle : Handle) (s : ServerState R H A S Handle)
      → Tracked view s
      → Tracked view (register_client m hook id handle s).1
  unfolding register_client
  register_client-Tracked id handle s h j there = ground (
    arith,
    law.connects s.router id,
    (law.connects s.router id).1 j,
    Maps.get-insert s.connections id j handle,
    h j,
  )

  unregister_client-Tracked :
      (id : ClientId) (s : ServerState R H A S Handle)
      → Tracked view s
      → Tracked view (unregister_client m hook id s)
  unfolding unregister_client
  unregister_client-Tracked id s h j there =
      ground (arith, (law.disconnects s.router id).1 j, Maps.get-remove s.connections id j, h j)

  flush_outboxes-Tracked :
      (targets : List ClientId) (s : ServerState R H A S Handle)
      → Tracked view s
      → Tracked view (flush_outboxes m hook channels targets s)
  unfolding flush_outboxes
  flush_outboxes-Tracked targets s h =
      deliver_all-Tracked view channels (collect m s.connections targets s.router).0 _
        (λ j there. collect-Holds m view law s.connections targets s.router j (h j there))

  route_and_flush-Tracked :
      (id : ClientId) (event : WireEvent) (s : ServerState R H A S Handle)
      → Tracked view s
      → Tracked view (route_and_flush m hook channels id event s).1
  unfolding route_and_flush
  route_and_flush-Tracked id event s h j there =
      let routed = m.route s.router id event in
      let kept = route-Holds m view law s.router id event in
      elim (Result-cases routed.0) [
        | inl (u, e) ↦ ground (
          arith,
          flush_outboxes-Tracked (delivery_targets id event)
              (record s { router = routed.1; hook = hook.on_route_accepted s.hook id event })
              (λ i held. kept i (h i held)) j,
        )
        | inr (x, e) ↦ ground (arith, kept j, h j)
      ]

  on_event-Tracked :
      (id : ClientId) (handle : Handle) (event : WireEvent) (s : ServerState R H A S Handle)
      → Tracked view s
      → Tracked view (on_event m hook channels from_str id handle event s)
  unfolding on_event
  on_event-Tracked id handle event s h j there =
      ground (arith, route_and_flush-Tracked id event s h j)

  open_connection-Tracked :
      (hello : Option ClientId) (handle : Handle) (s : ServerState R H A S Handle)
      → Tracked view s
      → Tracked view (open_connection m hook auth hello handle s).1
  unfolding open_connection
  open_connection-Tracked none handle s h j there = h j there
  open_connection-Tracked (some id) handle s h j there = ground (
    arith,
    h j,
    register_client-Tracked id handle (record s { auth = (auth.authorize_connect s.auth id).1 }) h
        j,
  )

  turn-Tracked :
      (id : ClientId) (handle : Handle) (wake : Wake) (s : ServerState R H A S Handle)
      → Tracked view s
      → Tracked view (turn m hook channels from_str id handle wake s).1
  unfolding turn
  turn-Tracked id handle (received (some (text_message raw))) s h j there =
      elim (Option-cases (from_str raw)) [
        | inl e ↦ ground (arith, h j)
        | inr (event, e) ↦ ground (arith, on_event-Tracked id handle event s h j)
      ]
  turn-Tracked id handle (received (some other_message)) s h j there = h j there
  turn-Tracked id handle _ s h j there = unregister_client-Tracked id s h j there

  -- If every client with a handle in the connection map is connected in the router, this stays so
  -- after every start of a connection, whether it is refused, rejected by the router or served,
  -- and after any turn of its loop, its end included. The router is any that implements the
  -- specification; the hook, the authorization, the channels and the decoder are arbitrary.
  pub steps-Tracked :
      (s : ServerState R H A S Handle) (handle : Handle)
      → Tracked view s
      → ((hello : Option ClientId) → Tracked view (open_connection m hook auth hello handle s).1)
        × ((id : ClientId) (wake : Wake)
            → Tracked view (turn m hook channels from_str id handle wake s).1)
  steps-Tracked s handle h = (
    λ hello. open_connection-Tracked hello handle s h,
    λ id wake. turn-Tracked id handle wake s h,
  )
