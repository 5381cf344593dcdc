-- ===== src/ChatServer/Ws/Presence.antt =====
-- Who is connected in the router after the turns of a connection of ws.rs that no other interrupts.
pub mod Whole
use e2e_chat_rs.Prelude.{
  ℕ, ◌≡◌, refl, Bool, true, false, not, ◌&&◌, ◌==◌, Option, none, some, List, [], ◌∷◌, arith, all,
  if◌then◌else◌, Result-cases, Option-cases, Bool-cases, inl, inr, ◌⊎◌,
}
use e2e_chat_rs.Prelude.Maps
use e2e_chat_rs.Prelude.Maps.{HashMap}
use e2e_chat_rs.ChatCore.Types.{ClientId, ClientId_eq}
use e2e_chat_rs.ChatCore.Event.{WireEvent}
use e2e_chat_rs.ChatCore.Service.{MessageRouter, EventHook, AuthProvider}
use e2e_chat_rs.ChatServer.Router.Contract.{View, Implements}
use e2e_chat_rs.ChatServer.Ws.{
  Channels, ServerState, OutboxDelivery, collect, send_events, deliver_all, flush_outboxes,
  register_client, unregister_client, route_and_flush, delivery_targets,
}
use e2e_chat_rs.ChatServer.Ws.Socket.{
  Incoming, text_message, other_message, protocol_error, Wake, received, close_received, Opening,
  ended, refused, serving, read_client_hello, open_connection, on_event, turn, run_turns,
  handle_socket,
}
use e2e_chat_rs.ChatServer.Ws.Tracking.{is_there}

-- Only a protocol error, the end of the socket and the close channel end a loop.
abbrev pub keeps_open : Wake → Bool
keeps_open (received (some (text_message raw))) = true
keeps_open (received (some other_message)) = true
keeps_open (received (some protocol_error)) = false
keeps_open (received none) = false
keeps_open close_received = false

-- The same clients are connected.
abbrev pub Same : {R : Type 0} → (R → View) → R → R → Type 0
Same view r r' = (j : ClientId) → is_there (view r' j) ≡ is_there (view r j)

module _ {R : Type 0} (m : MessageRouter R) (view : R → View) (law : Implements m view) where
  pub route-Same : (r : R) (id : ClientId) (event : WireEvent) → Same view r (m.route r id event).1
  route-Same r id event j = ground (arith, (law.routes r id event).1 j)

  drain_outbox-Same : (r : R) (id : ClientId) → Same view r (m.drain_outbox r id).1
  drain_outbox-Same r id j = ground (arith, (law.drains r id).1 j)

  pub collect-Same :
      {Handle : Type 0} (connections : HashMap ClientId Handle) (ids : List ClientId) (r : R)
      → Same view r (collect m connections ids r).1
  unfolding collect
  collect-Same connections [] r j = refl
  collect-Same connections (id ∷ ids) r j = ground (
    arith,
    collect-Same connections ids r j,
    collect-Same connections ids (m.drain_outbox r id).1 j,
    drain_outbox-Same r id j,
  )

module _ {R H A S Handle : Type 0} (channels : Channels S Handle) where
  send_events-router :
      (handle : Handle) (id : ClientId) (events : List WireEvent) (s : ServerState R H A S Handle)
      → (send_events channels handle id events s).router ≡ s.router
  unfolding send_events
  send_events-router handle id [] s = refl
  send_events-router handle id (event ∷ events) s = ground (
    arith,
    send_events-router handle id events
        (record s { channels = (channels.try_send handle event s.channels).1 }),
  )

  deliver_all-router :
      (ds : List (OutboxDelivery Handle)) (s : ServerState R H A S Handle)
      → (deliver_all channels ds s).router ≡ s.router
  unfolding deliver_all
  deliver_all-router [] s = refl
  deliver_all-router (d ∷ ds) s = ground (
    arith,
    deliver_all-router ds (send_events channels d.handle d.client_id d.events s),
    send_events-router d.handle d.client_id d.events s,
  )

module _ {R H A S Handle : Type 0} (m : MessageRouter R) (hook : EventHook H)
    (auth : AuthProvider A) (channels : Channels S Handle) (from_str : List ℕ → Option WireEvent)
    (view : R → View) (law : Implements m view) where
  on_event-Same :
      (id : ClientId) (handle : Handle) (event : WireEvent) (s : ServerState R H A S Handle)
      → Same view s.router (on_event m hook channels from_str id handle event s).router
  unfolding on_event route_and_flush flush_outboxes
  on_event-Same id handle event s j =
      let routed = m.route s.router id event in
      let next : ServerState R H A S Handle = record s {
        router = routed.1;
        hook = hook.on_route_accepted s.hook id event;
      } in
      let taken = collect m s.connections (delivery_targets id event) routed.1 in
      elim (Result-cases routed.0) [
        | inl (u, e) ↦ ground (
          arith,
          route-Same m view law s.router id event j,
          collect-Same m view law s.connections (delivery_targets id event) routed.1 j,
          deliver_all-router channels taken.0 (record next { router = taken.1 }),
        )
        | inr (x, e) ↦ ground (arith, route-Same m view law s.router id event j)
      ]

  -- What a turn or some turns of the loop leave.
  pub record Leaves (id : ClientId) (on : Bool) (s t : ServerState R H A S Handle) : Type 0 where
    pub mine : is_there (view t.router id) ≡ on
    others :
        (j : ClientId) → (id == j) ≡ false → is_there (view t.router j) ≡ is_there (view s.router j)
    pub listed : on ≡ false → Maps.get t.connections id ≡ none

  unregister_client-Leaves :
      (id : ClientId) (s : ServerState R H A S Handle)
      → Leaves id false s (unregister_client m hook id s)
  unfolding unregister_client
  unregister_client-Leaves id s = record {
    mine = ground (arith, (law.disconnects s.router id).1 id);
    others = λ j ne. ground (arith, (law.disconnects s.router id).1 j);
    listed = λ over. ground (arith, Maps.get-remove s.connections id id);
  }

  turn-Leaves :
      (id : ClientId) (handle : Handle) (wake : Wake) (s : ServerState R H A S Handle)
      → is_there (view s.router id) ≡ true
      → ((turn m hook channels from_str id handle wake s).0 ≡ keeps_open wake)
        × Leaves id (keeps_open wake) s (turn m hook channels from_str id handle wake s).1
  unfolding turn
  turn-Leaves id handle (received (some (text_message raw))) s there =
      elim (Option-cases (from_str raw)) [
        | inl e ↦ (
          ground arith,
          record { mine = ground arith; others = λ j ne. ground arith; listed = λ over. absurd cc },
        )
        | inr (event, e) ↦ (
          ground arith,
          record {
            mine = ground (arith, on_event-Same id handle event s id);
            others = λ j ne. ground (arith, on_event-Same id handle event s j);
            listed = λ over. absurd cc;
          },
        )
      ]
  turn-Leaves id handle (received (some other_message)) s there =
      (refl, record { mine = there; others = λ j ne. refl; listed = λ over. absurd cc })
  turn-Leaves id handle (received (some protocol_error)) s there =
      (refl, unregister_client-Leaves id s)
  turn-Leaves id handle (received none) s there = (refl, unregister_client-Leaves id s)
  turn-Leaves id handle close_received s there = (refl, unregister_client-Leaves id s)

  pub run_turns-Leaves :
      (id : ClientId) (handle : Handle) (wakes : List Wake) (s : ServerState R H A S Handle)
      → is_there (view s.router id) ≡ true
      → ((run_turns m hook channels from_str id handle wakes s).0 ≡ all keeps_open wakes)
        × Leaves id
            (all keeps_open wakes)
            s
            (run_turns m hook channels from_str id handle wakes s).1
  unfolding run_turns
  run_turns-Leaves id handle [] s there =
      (refl, record { mine = there; others = λ j ne. refl; listed = λ over. absurd cc })
  run_turns-Leaves id handle (wake ∷ wakes) s there =
      let woken = turn m hook channels from_str id handle wake s in
      let (goes, one) = turn-Leaves id handle wake s there in
      elim (Bool-cases (keeps_open wake)) [
        | inl stays ↦
            let (end, rest) = run_turns-Leaves id handle wakes woken.1 (ground (arith, one.mine)) in
            (
              ground (arith, goes, end),
              record {
                mine = ground (arith, goes, rest.mine);
                others = λ j ne. ground (arith, goes, rest.others j ne, one.others j ne);
                listed = λ over. ground (arith, goes, rest.listed);
              },
            )
        | inr over ↦ (
          ground (arith, goes),
          record {
            mine = ground (arith, goes, one.mine);
            others = λ j ne. ground (arith, goes, one.others j ne);
            listed = λ h. ground (arith, goes, one.listed over);
          },
        )
      ]
