-- ===== src/ChatServer/Ws/Overtaking/Stranded.antt =====
-- A message in ws.rs for a client whose connection is in the router and not yet in the map.
use e2e_chat_rs.ChatServer.Ws.System.Alone.{on_event-Runs}
use e2e_chat_rs.ChatServer.Ws.Overtaking.{run_in, Runs, after, here}
use e2e_chat_rs.ChatServer.Ws.Delivering.{collect_one, collect_nil, drained_view, routed}
use e2e_chat_rs.ChatCore.Types.{ClientId, ClientId_eq}
use e2e_chat_rs.ChatServer.Ws.{Channels, deliver_all, send_events}
use e2e_chat_rs.ChatServer.Router.Contract.{View, Implements}
use e2e_chat_rs.ChatServer.Ws.{
  Channels, ServerState, collect, route_and_flush, outbox_capacity, HashMap, delivery_targets,
  ClientId, flush_outboxes,
}
use e2e_chat_rs.ChatCore.Service.{MessageRouter, EventHook, AuthProvider}
use e2e_chat_rs.Prelude.{
  ℕ, ◌≡◌, ◌≢◌, refl, none, some, Option, List, [], ◌∷◌, ◌++◌, ok, arith, ◌+◌, ◌≤◌, length,
}
use e2e_chat_rs.Prelude.Maps
use e2e_chat_rs.ChatCore.Event.{WireEvent, EncryptedEnvelope, encrypted_message, ack}
use e2e_chat_rs.ChatServer.Ws.Bounded.{IsBounded, send_events-Fits}
use e2e_chat_rs.ChatServer.Ws.Socket.{on_event}
use e2e_chat_rs.ChatServer.Ws.System.{looping, inserting, inserts, announces, World, Reach}

collect_absent :
    {R : Type 0} (m : MessageRouter R) (connections : HashMap ClientId ℕ) (id : ClientId)
    (ids : List ClientId) (r : R)
    → Maps.get connections id ≡ none
    → collect m connections (id ∷ ids) r ≡ collect m connections ids r
unfolding collect
collect_absent m connections id ids r absent = ground arith

module _ {R H A S : Type 0} (m : MessageRouter R) (hook : EventHook H) (channels : Channels S ℕ)
    (view : R → View) (law : Implements m view) (queue : S → ℕ → List WireEvent)
    (bounded : IsBounded channels queue) (i : ℕ) (e : EncryptedEnvelope) where
  -- The sender is connected, with room in its channel, the recipient is in the router only, and
  -- nothing waits for either.
  pub record Arriving (s : ServerState R H A S ℕ) : Type 0 where
    pub apart : e.recipient ≢ e.sender
    pub a_there : Maps.get s.connections e.sender ≡ some i
    pub b_unlisted : Maps.get s.connections e.recipient ≡ none
    pub a_waits : view s.router e.sender ≡ some []
    pub b_waits : view s.router e.recipient ≡ some []
    pub a_room : length (queue s.channels i) + 1 ≤ outbox_capacity

  routed_there :
      (s : ServerState R H A S ℕ)
      → Arriving s
      → let r = m.route s.router e.sender (encrypted_message e) in
        (r.0 ≡ ok tt)
        × (view r.1 e.recipient ≡ some (encrypted_message e ∷ []))
        × (view r.1 e.sender ≡ some ([] ++ ack e.message_id ∷ []))
  routed_there s c =
      let agrees = law.routes s.router e.sender (encrypted_message e) in
      (
        ground (arith, agrees, c),
        ground (arith, agrees.1 e.recipient, c),
        ground (arith, agrees.1 e.sender, c),
      )

  -- The message is left in the outbox, and only the acknowledgement is taken out.
  abbrev left_behind : ServerState R H A S ℕ → ServerState R H A S ℕ
  left_behind s = record s {
    router = (m.drain_outbox (m.route s.router e.sender (encrypted_message e)).1 e.sender).1;
    hook = hook.on_route_accepted s.hook e.sender (encrypted_message e);
  }

  on_event-left_behind :
      (from_str : List ℕ → Option WireEvent) (s : ServerState R H A S ℕ)
      → Arriving s
      → on_event m hook channels from_str e.sender i (encrypted_message e) s
        ≡ send_events channels i e.sender (ack e.message_id ∷ []) (left_behind s)
  unfolding on_event route_and_flush delivery_targets flush_outboxes deliver_all
  on_event-left_behind from_str s c =
      let (accepted_ok, b_has, a_has) = routed_there s c in
      let r = (m.route s.router e.sender (encrypted_message e)).1 in
      ground (
        arith,
        accepted_ok,
        collect_absent m s.connections e.recipient (e.sender ∷ []) r c.b_unlisted,
        collect_one m view law s.connections e.sender [] r i [] (ack e.message_id) c.a_there a_has,
        collect_nil m view law s.connections (m.drain_outbox r e.sender).1,
      )

  -- What the turn of the sender leaves.
  record Left (s t : ServerState R H A S ℕ) : Type 0 where
    pub connections : t.connections ≡ s.connections
    pub stays : view t.router e.recipient ≡ some (encrypted_message e ∷ [])
    pub to_a : queue t.channels i ≡ queue s.channels i ++ ack e.message_id ∷ []
    pub others : (j : ℕ) → i ≢ j → queue t.channels j ≡ queue s.channels j

  on_event-Left :
      (from_str : List ℕ → Option WireEvent) (s : ServerState R H A S ℕ)
      → Arriving s
      → Left s (on_event m hook channels from_str e.sender i (encrypted_message e) s)
  on_event-Left from_str s c =
      let (_, b_has, a_has) = routed_there s c in
      let fits =
        send_events-Fits channels queue bounded i e.sender (ack e.message_id ∷ []) (left_behind s)
          c.a_room in
      let kept =
        drained_view m view law (routed m s.router e) e.sender e.recipient
          ([] ++ ack e.message_id ∷ []) a_has in
      rw (on_event-left_behind from_str s c) (record {
        connections = ground (arith, fits.same);
        stays = ground (arith, fits.same, kept, b_has, c.apart);
        to_a = fits.got;
        others = fits.others;
      })

module _ {R H A S : Type 0} (m : MessageRouter R) (hook : EventHook H) (auth : AuthProvider A)
    (channels : Channels S ℕ) (from_str : List ℕ → Option WireEvent) (view : R → View)
    (law : Implements m view) (queue : S → ℕ → List WireEvent) (bounded : IsBounded channels queue)
    (i j : ℕ) (e : EncryptedEnvelope) where
  -- When a client sends a message to another whose connection is between its connect and its entry
  -- in the connection map, there are further steps after which both are back in their loops, the
  -- sender has the acknowledgement in its channel, and the message stays in the outbox of its
  -- recipient, who is in the connection map, while no event was added to the channel of the
  -- recipient. The state is any that is reached in which nothing waits for either and the sender
  -- has room, the router implements the specification, and the channels are bounded queues.
  pub message_stranded :
      (start : ServerState R H A S ℕ) (w : World R H A S)
      → Reach m hook auth channels from_str start w
      → w.pc i ≡ looping e.sender
      → w.pc j ≡ inserting e.recipient
      → Arriving m hook channels view law queue bounded i e w.shared
      → (x : World R H A S) × Reach m hook auth channels from_str start x
        × (x.pc i ≡ looping e.sender)
        × (x.pc j ≡ looping e.recipient)
        × (Maps.get x.shared.connections e.recipient ≡ some j)
        × (view x.shared.router e.recipient ≡ some (encrypted_message e ∷ []))
        × (queue x.shared.channels j ≡ queue w.shared.channels j)
        × (queue x.shared.channels i ≡ queue w.shared.channels i ++ ack e.message_id ∷ [])
  message_stranded start w r at_i at_j arriving =
      let apart : i ≢ j = λ same. ground arith in
      let s1 = on_event m hook channels from_str e.sender i (encrypted_message e) w.shared in
      let left =
        on_event-Left m hook channels view law queue bounded i e from_str w.shared arriving in
      let run1 =
        run_in m hook auth channels from_str start w i
          (on_event-Runs m hook auth channels from_str i e.sender (encrypted_message e) w.shared)
          refl at_i r in
      let s2 : ServerState R H A S ℕ = record s1 {
        connections = Maps.insert s1.connections e.recipient j;
      } in
      let s3 : ServerState R H A S ℕ = record s2 { hook = hook.on_connect s2.hook e.recipient } in
      let joins : Runs m hook auth channels from_str j s1 (inserting e.recipient) s3
          (looping e.recipient) =
        after (after here (inserts e.recipient)) (announces e.recipient) in
      let run2 =
        run_in m hook auth channels from_str start run1.world j joins run1.shared
          (ground (arith, run1.others j apart)) run1.reach in
      (
        run2.world,
        run2.reach,
        ground (arith, run2.others i, run1.there, apart),
        run2.there,
        ground (arith, run2.shared, Maps.get-insert s1.connections e.recipient e.recipient j),
        ground (arith, run2.shared, left.stays),
        ground (arith, run2.shared, left.others j apart),
        ground (arith, run2.shared, left.to_a),
      )
