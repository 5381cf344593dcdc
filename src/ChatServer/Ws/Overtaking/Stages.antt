-- ===== src/ChatServer/Ws/Overtaking/Stages.antt =====
-- Two messages of one client to another in ws.rs, with an answer between them: the states that the
-- two tasks pass.
use e2e_chat_rs.ChatServer.Ws.Overtaking.Turns.{
  first_routed, taken_out, flushed_nothing, drain_idle, flush_of, both_drained,
}
use e2e_chat_rs.ChatServer.Ws.{
  outbox_capacity, OutboxDelivery, deliver_all, send_events, ClientId, MessageRouter, EventHook,
  Channels, AuthProvider, ServerState,
}
use e2e_chat_rs.ChatServer.Router.Contract.{View, Implements}
use e2e_chat_rs.Prelude.{
  ℕ, ◌≡◌, ◌≢◌, sym, Option, some, List, [], ◌∷◌, ◌++◌, arith, ◌+◌, ◌≤◌, length,
}
use e2e_chat_rs.ChatCore.Event.{WireEvent, EncryptedEnvelope, encrypted_message, ack}
use e2e_chat_rs.ChatServer.Ws.Bounded.{IsBounded, send_events-Fits}
use e2e_chat_rs.ChatServer.Ws.Delivering.{
  Connected, drained, message_delivered, routed_views, drained_views,
}
use e2e_chat_rs.ChatServer.Ws.Socket.{on_event}
use e2e_chat_rs.ChatServer.Ws.System.{}
use e2e_chat_rs.ChatServer.Ws.Overtaking.{on_event-hook, deliver_all-hook, on_event}

-- Two messages of one client to another, and an answer.
pub record Chat (e next f : EncryptedEnvelope) : Type 0 where
  pub same_sender : next.sender ≡ e.sender
  pub same_recipient : next.recipient ≡ e.recipient
  pub answer_from : f.sender ≡ e.recipient
  pub answer_to : f.recipient ≡ e.sender

module _ {R H A S : Type 0} (m : MessageRouter R) (hook : EventHook H) (channels : Channels S ℕ)
    (view : R → View) (law : Implements m view) (queue : S → ℕ → List WireEvent)
    (bounded : IsBounded channels queue) where
  -- Both clients are connected, nothing waits in their outboxes, and their channels have room.
  pub record Ready (i j : ℕ) (e : EncryptedEnvelope) (s : ServerState R H A S ℕ) : Type 0 where
    pub connected :
        Connected m hook channels queue bounded view law s e.sender e.recipient i j [] []
    pub a_room : length (queue s.channels i) + 3 ≤ outbox_capacity
    pub b_room : length (queue s.channels j) + 3 ≤ outbox_capacity

module _ {R H A S : Type 0} (m : MessageRouter R) (hook : EventHook H) (auth : AuthProvider A)
    (channels : Channels S ℕ) (from_str : List ℕ → Option WireEvent) (view : R → View)
    (law : Implements m view) (queue : S → ℕ → List WireEvent) (bounded : IsBounded channels queue)
    (i j : ℕ) (e next f : EncryptedEnvelope) where
  abbrev pub turns_first : ServerState R H A S ℕ → ServerState R H A S ℕ
  turns_first s = first_routed m hook auth channels from_str view law queue bounded i j e f s

  abbrev pub turns_second : ServerState R H A S ℕ → ServerState R H A S ℕ
  turns_second s = taken_out m hook auth channels from_str view law queue bounded i j e f s

  abbrev pub turns_third : ServerState R H A S ℕ → ServerState R H A S ℕ
  turns_third s = flushed_nothing m hook auth channels from_str view law queue bounded i j e f s

  pub second_Connected :
      (s : ServerState R H A S ℕ)
      → Chat e next f
      → Ready m hook channels view law queue bounded i j e s
      → Connected m hook channels queue bounded view law
          (turns_first s)
          f.sender
          f.recipient
          j
          i
          (encrypted_message e ∷ [])
          (ack e.message_id ∷ [])
  second_Connected s chat ready =
      let c = ready.connected in
      let (_, b_waits, a_waits) =
        routed_views m hook channels queue bounded view law s e i j [] [] c in
      record {
        apart = λ same. c.apart (ground (arith, chat));
        handles_apart = λ same. c.handles_apart (sym same);
        a_there = ground (arith, c.b_there, chat);
        b_there = ground (arith, c.a_there, chat);
        a_waits = ground (arith, b_waits, chat);
        b_waits = ground (arith, a_waits, chat);
        a_room = omega (arith, ready.b_room);
        b_room = omega (arith, ready.a_room);
      }

  pub second_idle :
      (s : ServerState R H A S ℕ)
      → Chat e next f
      → Ready m hook channels view law queue bounded i j e s
      → let r = drained m (turns_first s).router f in
        (view r e.sender ≡ some []) × (view r e.recipient ≡ some [])
  second_idle s chat ready =
      let (no_a, no_b) =
        drained_views m hook channels queue bounded view law (turns_first s) f j i
          (encrypted_message e ∷ []) (ack e.message_id ∷ []) (second_Connected s chat ready) in
      (ground (arith, no_a, chat), ground (arith, no_b, chat))

  -- Before the second message, nothing waits in the outboxes again.
  pub third_Connected :
      (s : ServerState R H A S ℕ)
      → Chat e next f
      → Ready m hook channels view law queue bounded i j e s
      → Connected m hook channels queue bounded view law
          (turns_third (turns_second (turns_first s)))
          next.sender
          next.recipient
          i
          j
          []
          []
  third_Connected s chat ready =
      let c = ready.connected in
      let s1 = turns_first s in
      let r = drained m s1.router f in
      let (a_idle, b_idle) = second_idle s chat ready in
      let nothing_left : (id : ClientId)
          → view r id ≡ some []
          → view (both_drained m view law r e.sender e.recipient) id ≡ some [] =
        λ id idle.
          drain_idle m view law (m.drain_outbox r e.recipient).1 e.sender id []
            (drain_idle m view law r e.recipient e.sender [] b_idle a_idle)
            (drain_idle m view law r e.recipient id [] b_idle idle) in
      record {
        apart = λ same. c.apart (ground (arith, chat));
        handles_apart = c.handles_apart;
        a_there = ground (arith, c.a_there, chat);
        b_there = ground (arith, c.b_there, chat);
        a_waits = ground (arith, nothing_left e.sender a_idle, chat);
        b_waits = ground (arith, nothing_left e.recipient b_idle, chat);
        a_room = omega (arith, ready.a_room);
        b_room = omega (arith, ready.b_room);
      }

  abbrev pub turns_fourth : ServerState R H A S ℕ → ServerState R H A S ℕ
  turns_fourth s = on_event m hook channels from_str next.sender i (encrypted_message next) s

  -- The second message goes through at once.
  pub record Passed (s t : ServerState R H A S ℕ) : Type 0 where
    pub connections : t.connections ≡ s.connections
    pub to_b : queue t.channels j ≡ queue s.channels j ++ encrypted_message next ∷ []
    pub to_a : queue t.channels i ≡ queue s.channels i ++ ack next.message_id ∷ []
    pub told : t.hook ≡ hook.on_route_accepted s.hook next.sender (encrypted_message next)

  pub fourth-Passed :
      (s : ServerState R H A S ℕ)
      → Connected m hook channels queue bounded view law s next.sender next.recipient i j [] []
      → Passed s (turns_fourth s)
  unfolding on_event
  fourth-Passed s c =
      let done = message_delivered m hook channels queue bounded view law s next i j [] [] c in
      let (accepted_ok, _, _) =
        routed_views m hook channels queue bounded view law s next i j [] [] c in
      record {
        connections = ground (arith, done);
        to_b = ground (arith, done);
        to_a = ground (arith, done);
        told =
            on_event-hook m hook channels from_str next.sender i (encrypted_message next) s
              accepted_ok;
      }

  abbrev pub collected_first : List (OutboxDelivery ℕ)
  collected_first =
      flush_of m hook auth channels from_str view law queue bounded i j e f (ack e.message_id ∷ [])
        (encrypted_message e ∷ [])

  -- What was collected before it is sent now.
  pub record Sent (s t : ServerState R H A S ℕ) : Type 0 where
    pub connections : t.connections ≡ s.connections
    pub to_b :
        queue t.channels j ≡ queue s.channels j ++ encrypted_message e ∷ ack f.message_id ∷ []
    pub told : t.hook ≡ s.hook

  pub fifth-Sent :
      (s : ServerState R H A S ℕ)
      → j ≢ i
      → length (queue s.channels i) + 2 ≤ outbox_capacity
      → length (queue s.channels j) + 2 ≤ outbox_capacity
      → Sent s (deliver_all channels collected_first s)
  unfolding deliver_all
  fifth-Sent s apart a_room b_room =
      let one =
        send_events-Fits channels queue bounded i f.recipient
          (ack e.message_id ∷ encrypted_message f ∷ []) s a_room in
      let mid =
        send_events channels i f.recipient (ack e.message_id ∷ encrypted_message f ∷ []) s in
      let same_queue : queue mid.channels j ≡ queue s.channels j =
        one.others j (λ same. apart (sym same)) in
      let two =
        send_events-Fits channels queue bounded j f.sender
          (encrypted_message e ∷ ack f.message_id ∷ []) mid (ground (arith, b_room, same_queue)) in
      record {
        connections = ground (arith, one.same, two.same);
        to_b = ground (arith, two.got, same_queue);
        told = deliver_all-hook m hook channels collected_first s;
      }
