-- ===== src/ChatServer/Ws/Delivering.antt =====
-- A message through `route_and_flush` of ws.rs, into the channels of both clients.
use e2e_chat_rs.Prelude.{
  ◌+◌, ◌≤◌, ◌≡◌, ◌≢◌, refl, sym, ap, ◌∙◌, some, List, [], ◌∷◌, ◌++◌, arith, ok, length,
  length-append, ◌==◌, if◌then◌else◌,
}
use e2e_chat_rs.Prelude.Maps
use e2e_chat_rs.Prelude.Maps.{HashMap}
use e2e_chat_rs.ChatCore.Types.{ClientId, ClientId_eq}
use e2e_chat_rs.ChatCore.Event.{WireEvent, EncryptedEnvelope, encrypted_message, ack}
use e2e_chat_rs.ChatCore.Service.{MessageRouter, EventHook}
use e2e_chat_rs.ChatServer.Router.Contract.{View, Implements}
use e2e_chat_rs.ChatServer.Ws.{
  Channels, ServerState, OutboxDelivery, outbox_capacity, collect, send_events, deliver_all,
  flush_outboxes, route_and_flush, delivery_targets,
}
use e2e_chat_rs.ChatServer.Ws.Bounded.{IsBounded, send_events-Fits}

-- A queue with something at its end is not empty.
append_cons :
    (q : List WireEvent) (event : WireEvent)
    → (first : WireEvent) × (rest : List WireEvent) × (q ++ event ∷ [] ≡ first ∷ rest)
append_cons [] event = (event, [], refl)
append_cons (x ∷ q) event = (x, q ++ event ∷ [], refl)

abbrev delivery_of : {Handle : Type 0} → Handle → ClientId → List WireEvent → OutboxDelivery Handle
delivery_of h id events = record { handle = h; client_id = id; events = events }

-- The deliveries for a message.
abbrev pub message_of :
    {Handle : Type 0} → EncryptedEnvelope → Handle → List WireEvent → OutboxDelivery Handle
message_of e hb qb = delivery_of hb e.recipient (qb ++ encrypted_message e ∷ [])

abbrev pub ack_of :
    {Handle : Type 0} → EncryptedEnvelope → Handle → List WireEvent → OutboxDelivery Handle
ack_of e ha qa = delivery_of ha e.sender (qa ++ ack e.message_id ∷ [])

-- The router after a message is routed, and after both outboxes are drained.
abbrev pub routed : {R : Type 0} → MessageRouter R → R → EncryptedEnvelope → R
routed m r e = (m.route r e.sender (encrypted_message e)).1

abbrev pub drained : {R : Type 0} → MessageRouter R → R → EncryptedEnvelope → R
drained m r e = (m.drain_outbox (m.drain_outbox (routed m r e) e.recipient).1 e.sender).1

module _ {R : Type 0} (m : MessageRouter R) (view : R → View) (law : Implements m view) where
  pub drained_view :
      (r : R) (id j : ClientId) (q : List WireEvent)
      → view r id ≡ some q
      → view (m.drain_outbox r id).1 j ≡ (if id == j then some [] else view r j)
  drained_view r id j q waits = ground (arith, (law.drains r id).1 j)

module _ {R Handle : Type 0} (m : MessageRouter R) (view : R → View) (law : Implements m view) where
  pub collect_nil :
      (connections : HashMap ClientId Handle) (r : R) → collect m connections [] r ≡ ([], r)
  unfolding collect
  collect_nil connections r = refl

  -- What `collect` takes for a client whose outbox is not empty.
  pub collect_one :
      (connections : HashMap ClientId Handle) (id : ClientId) (ids : List ClientId) (r : R)
      (h : Handle) (q : List WireEvent) (event : WireEvent)
      → Maps.get connections id ≡ some h
      → view r id ≡ some (q ++ event ∷ [])
      → collect m connections (id ∷ ids) r ≡ (
        delivery_of h id (q ++ event ∷ []) ∷ (collect m connections ids (m.drain_outbox r id).1).0,
        (collect m connections ids (m.drain_outbox r id).1).1,
      )
  unfolding collect
  collect_one connections id ids r h q event there waits =
      let (first, rest, e) = append_cons q event in ground (arith, law.drains r id, e)

module _ {R H A S Handle : Type 0} (m : MessageRouter R) (hook : EventHook H)
    (channels : Channels S Handle) (queue : S → Handle → List WireEvent)
    (bounded : IsBounded channels queue) (view : R → View) (law : Implements m view) where
  -- Two clients that are connected, through different channels, with room for what waits for them.
  pub record Connected (s : ServerState R H A S Handle) (a b : ClientId) (ha hb : Handle)
      (qa qb : List WireEvent) : Type 0 where
    pub apart : b ≢ a
    pub handles_apart : hb ≢ ha
    pub a_there : Maps.get s.connections a ≡ some ha
    pub b_there : Maps.get s.connections b ≡ some hb
    pub a_waits : view s.router a ≡ some qa
    pub b_waits : view s.router b ≡ some qb
    pub a_room : length (queue s.channels ha) + length qa + 1 ≤ outbox_capacity
    pub b_room : length (queue s.channels hb) + length qb + 1 ≤ outbox_capacity

  pub routed_views :
      (s : ServerState R H A S Handle) (e : EncryptedEnvelope) (ha hb : Handle)
      (qa qb : List WireEvent)
      → Connected s e.sender e.recipient ha hb qa qb
      → let r = (m.route s.router e.sender (encrypted_message e)) in
        (r.0 ≡ ok tt)
        × (view r.1 e.recipient ≡ some (qb ++ encrypted_message e ∷ []))
        × (view r.1 e.sender ≡ some (qa ++ ack e.message_id ∷ []))
  routed_views s e ha hb qa qb c =
      let routed = law.routes s.router e.sender (encrypted_message e) in
      (
        ground (arith, routed, c),
        ground (arith, routed.1 e.recipient, c),
        ground (arith, routed.1 e.sender, c),
      )

  pub collect_two :
      (s : ServerState R H A S Handle) (e : EncryptedEnvelope) (ha hb : Handle)
      (qa qb : List WireEvent)
      → Connected s e.sender e.recipient ha hb qa qb
      → collect m s.connections
          (e.recipient ∷ e.sender ∷ [])
          (m.route s.router e.sender (encrypted_message e)).1
        ≡ (message_of e hb qb ∷ ack_of e ha qa ∷ [], drained m s.router e)
  collect_two s e ha hb qa qb c =
      let r = (m.route s.router e.sender (encrypted_message e)).1 in
      let (_, b_waits, a_waits) = routed_views s e ha hb qa qb c in
      let first =
        collect_one m view law s.connections e.recipient (e.sender ∷ []) r hb qb
          (encrypted_message e) c.b_there b_waits in
      let left : view (m.drain_outbox r e.recipient).1 e.sender
          ≡ some (qa ++ ack e.message_id ∷ []) =
        ground (
          arith,
          drained_view m view law r e.recipient e.sender (qb ++ encrypted_message e ∷ []) b_waits,
          c.apart,
          a_waits,
        ) in
      let second =
        collect_one m view law s.connections e.sender [] (m.drain_outbox r e.recipient).1 ha qa
          (ack e.message_id) c.a_there left in
      ground (arith, first, second, collect_nil m view law s.connections (drained m s.router e))

  -- Both outboxes are empty once they have been drained.
  pub drained_views :
      (s : ServerState R H A S Handle) (e : EncryptedEnvelope) (ha hb : Handle)
      (qa qb : List WireEvent)
      → Connected s e.sender e.recipient ha hb qa qb
      → (view (drained m s.router e) e.recipient ≡ some [])
        × (view (drained m s.router e) e.sender ≡ some [])
  drained_views s e ha hb qa qb c =
      let (_, b_waits, a_waits) = routed_views s e ha hb qa qb c in
      let r = routed m s.router e in
      let after_one = (m.drain_outbox r e.recipient).1 in
      let one_left =
        drained_view m view law r e.recipient e.sender (qb ++ encrypted_message e ∷ []) b_waits in
      let recipient_first =
        drained_view m view law r e.recipient e.recipient (qb ++ encrypted_message e ∷ [])
          b_waits in
      let sender_waits : view after_one e.sender ≡ some (qa ++ ack e.message_id ∷ []) =
        ground (arith, one_left, c.apart, a_waits) in
      (
        ground (
          arith,
          drained_view m view law after_one e.sender e.recipient (qa ++ ack e.message_id ∷ [])
              sender_waits,
          recipient_first,
        ),
        ground (
          arith,
          drained_view m view law after_one e.sender e.sender (qa ++ ack e.message_id ∷ [])
              sender_waits,
        ),
      )

  -- The state once the outboxes have been taken out, and after the first of the two deliveries.
  abbrev taken : ServerState R H A S Handle → EncryptedEnvelope → ServerState R H A S Handle
  taken s e = record s {
    router = drained m s.router e;
    hook = hook.on_route_accepted s.hook e.sender (encrypted_message e);
  }

  abbrev half_sent :
      ServerState R H A S Handle
      → EncryptedEnvelope
      → Handle
      → List WireEvent
      → ServerState R H A S Handle
  half_sent s e hb qb =
      send_events channels hb e.recipient (qb ++ encrypted_message e ∷ []) (taken s e)

  route_and_flush_lem :
      (s : ServerState R H A S Handle) (e : EncryptedEnvelope) (ha hb : Handle)
      (qa qb : List WireEvent)
      → Connected s e.sender e.recipient ha hb qa qb
      → route_and_flush m hook channels e.sender (encrypted_message e) s ≡ (
        ok tt,
        send_events channels ha e.sender (qa ++ ack e.message_id ∷ []) (half_sent s e hb qb),
      )
  unfolding route_and_flush delivery_targets flush_outboxes deliver_all
  route_and_flush_lem s e ha hb qa qb c =
      ground (arith, (routed_views s e ha hb qa qb c).0, collect_two s e ha hb qa qb c)

  -- An encrypted message between two connected clients is accepted by the relay, and the flush
  -- after it puts what waited for the recipient and the message behind the queue of the recipient,
  -- and what waited for the sender and the acknowledgement behind the queue of the sender; both
  -- outboxes are empty then, and the connections are as they were. The clients have different
  -- channels with room, the channels are bounded queues, and the router implements the
  -- specification.
  pub message_delivered :
      (s : ServerState R H A S Handle) (e : EncryptedEnvelope) (ha hb : Handle)
      (qa qb : List WireEvent)
      → Connected s e.sender e.recipient ha hb qa qb
      → let done = route_and_flush m hook channels e.sender (encrypted_message e) s in
        (done.0 ≡ ok tt)
        × (done.1.connections ≡ s.connections)
        × (queue done.1.channels hb ≡ queue s.channels hb ++ (qb ++ encrypted_message e ∷ []))
        × (queue done.1.channels ha ≡ queue s.channels ha ++ (qa ++ ack e.message_id ∷ []))
        × (view done.1.router e.recipient ≡ some [])
        × (view done.1.router e.sender ≡ some [])
  message_delivered s e ha hb qa qb c =
      let first =
        send_events-Fits channels queue bounded hb e.recipient (qb ++ encrypted_message e ∷ [])
          (taken s e) (ground (arith, c.b_room, length-append qb (encrypted_message e ∷ []))) in
      let mid = half_sent s e hb qb in
      let same_queue : queue mid.channels ha ≡ queue s.channels ha =
        first.others ha c.handles_apart in
      let second =
        send_events-Fits channels queue bounded ha e.sender (qa ++ ack e.message_id ∷ []) mid
          (ground (arith, c.a_room, same_queue, length-append qa (ack e.message_id ∷ []))) in
      let (recipient_left, sender_left) = drained_views s e ha hb qa qb c in
      let t = send_events channels ha e.sender (qa ++ ack e.message_id ∷ []) mid in
      let router_same : t.router ≡ drained m s.router e = ground (arith, first.same, second.same) in
      rw (route_and_flush_lem s e ha hb qa qb c) (
        refl,
        ground (arith, first.same, second.same),
        second.others hb (λ same. c.handles_apart (sym same)) ∙ first.got,
        second.got ∙ ap (λ (q : List WireEvent). q ++ (qa ++ ack e.message_id ∷ [])) same_queue,
        ground (arith, router_same, recipient_left),
        ground (arith, router_same, sender_left),
      )
