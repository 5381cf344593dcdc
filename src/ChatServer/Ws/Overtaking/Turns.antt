-- ===== src/ChatServer/Ws/Overtaking/Turns.antt =====
-- The turns of two tasks of ws.rs that flush for the same two clients, each of them on its own.
use e2e_chat_rs.ChatServer.Ws.{collect, Channels, ServerState, OutboxDelivery, delivery_targets}
use e2e_chat_rs.ChatCore.Service.{MessageRouter, EventHook, AuthProvider}
use e2e_chat_rs.ChatCore.Types.{ClientId_eq, ClientId}
use e2e_chat_rs.Prelude.Maps.{HashMap}
use e2e_chat_rs.ChatServer.Router.Contract.{View, Implements}
use e2e_chat_rs.Prelude.{ℕ, ◌≡◌, Option, some, List, [], ◌∷◌, arith, ◌∙◌}
use e2e_chat_rs.Prelude.Maps
use e2e_chat_rs.ChatCore.Event.{WireEvent, EncryptedEnvelope, encrypted_message}
use e2e_chat_rs.ChatServer.Ws.Bounded.{IsBounded}
use e2e_chat_rs.ChatServer.Ws.Delivering.{
  Connected, routed, drained, message_of, ack_of, routed_views, collect_nil, collect_two,
}
use e2e_chat_rs.ChatServer.Ws.System.Alone.{Runs, here, after, lands}
use e2e_chat_rs.ChatServer.Ws.System.{
  looping, accepted, delivering, hears, routes, accepts, collects, finishes,
}

module _ {R : Type 0} (m : MessageRouter R) (view : R → View) (law : Implements m view) where
  pub drain_idle :
      (r : R) (id j : ClientId) (outbox : List WireEvent)
      → view r id ≡ some []
      → view r j ≡ some outbox
      → view (m.drain_outbox r id).1 j ≡ some outbox
  drain_idle r id j outbox idle there = ground (arith, (law.drains r id).1 j)

  -- A flush of two clients for whom nothing waits.
  collect_one_idle :
      {Handle : Type 0} (connections : HashMap ClientId Handle) (id : ClientId)
      (ids : List ClientId) (r : R) (h : Handle)
      → Maps.get connections id ≡ some h
      → view r id ≡ some []
      → collect m connections (id ∷ ids) r ≡ collect m connections ids (m.drain_outbox r id).1
  unfolding collect
  collect_one_idle connections id ids r h there idle = ground (arith, law.drains r id)

  abbrev pub both_drained : R → ClientId → ClientId → R
  both_drained r a b = (m.drain_outbox (m.drain_outbox r b).1 a).1

  collect_idle :
      {Handle : Type 0} (connections : HashMap ClientId Handle) (a b : ClientId) (r : R)
      (ha hb : Handle)
      → Maps.get connections a ≡ some ha
      → Maps.get connections b ≡ some hb
      → view r a ≡ some []
      → view r b ≡ some []
      → collect m connections (b ∷ a ∷ []) r ≡ ([], both_drained r a b)
  collect_idle connections a b r ha hb a_there b_there no_a no_b =
      collect_one_idle connections b (a ∷ []) r hb b_there no_b
      ∙ collect_one_idle connections a [] (m.drain_outbox r b).1 ha a_there
          (drain_idle r b a [] no_b no_a)
      ∙ collect_nil m view law connections (both_drained r a b)

module _ {R H A S : Type 0} (m : MessageRouter R) (hook : EventHook H) (auth : AuthProvider A)
    (channels : Channels S ℕ) (from_str : List ℕ → Option WireEvent) (view : R → View)
    (law : Implements m view) (queue : S → ℕ → List WireEvent) (bounded : IsBounded channels queue)
    (i j : ℕ) (e f : EncryptedEnvelope) where
  -- Task `i` has routed `e`.
  abbrev pub first_routed : ServerState R H A S ℕ → ServerState R H A S ℕ
  first_routed s = record s { router = routed m s.router e }

  pub first_Runs :
      (s : ServerState R H A S ℕ)
      → Connected m hook channels queue bounded view law s e.sender e.recipient i j [] []
      → Runs m hook auth channels from_str i s
          (looping e.sender)
          (first_routed s)
          (accepted e.sender (encrypted_message e))
  first_Runs s c =
      let (accepted_ok, _, _) =
        routed_views m hook channels queue bounded view law s e i j [] [] c in
      after (after here (hears e.sender (encrypted_message e)))
        (routes e.sender (encrypted_message e) accepted_ok)

  -- Task `j` has routed `f` and taken out both outboxes.
  abbrev pub taken_out : ServerState R H A S ℕ → ServerState R H A S ℕ
  taken_out s = record s {
    router = drained m s.router f;
    hook = hook.on_route_accepted s.hook f.sender (encrypted_message f);
  }

  abbrev pub flush_of : List WireEvent → List WireEvent → List (OutboxDelivery ℕ)
  flush_of qa qb = message_of f i qa ∷ ack_of f j qb ∷ []

  pub second_Runs :
      (s : ServerState R H A S ℕ) (qa qb : List WireEvent)
      → Connected m hook channels queue bounded view law s f.sender f.recipient j i qb qa
      → Runs m hook auth channels from_str j s
          (looping f.sender)
          (taken_out s)
          (delivering f.sender (flush_of qa qb))
  unfolding delivery_targets
  second_Runs s qa qb c =
      let (accepted_ok, _, _) =
        routed_views m hook channels queue bounded view law s f j i qb qa c in
      let taken = collect_two m hook channels queue bounded view law s f j i qb qa c in
      lands m hook auth channels from_str j
        (after
          (after
            (after (after here (hears f.sender (encrypted_message f)))
              (routes f.sender (encrypted_message f) accepted_ok))
            (accepts f.sender (encrypted_message f)))
          (collects f.sender (f.recipient ∷ f.sender ∷ [])))
        (ground (arith, taken)) (ground (arith, taken))

  -- Task `i` accepts `e`, and finds nothing to flush.
  abbrev pub flushed_nothing : ServerState R H A S ℕ → ServerState R H A S ℕ
  flushed_nothing s = record s {
    router = both_drained m view law s.router e.sender e.recipient;
    hook = hook.on_route_accepted s.hook e.sender (encrypted_message e);
  }

  pub third_Runs :
      (s : ServerState R H A S ℕ)
      → Maps.get s.connections e.sender ≡ some i
      → Maps.get s.connections e.recipient ≡ some j
      → view s.router e.sender ≡ some []
      → view s.router e.recipient ≡ some []
      → Runs m hook auth channels from_str i s
          (accepted e.sender (encrypted_message e))
          (flushed_nothing s)
          (looping e.sender)
  unfolding delivery_targets
  third_Runs s a_there b_there no_a no_b =
      let nothing =
        collect_idle m view law s.connections e.sender e.recipient s.router i j a_there b_there no_a
          no_b in
      after
        (lands m hook auth channels from_str i
          (after (after here (accepts e.sender (encrypted_message e)))
            (collects e.sender (e.recipient ∷ e.sender ∷ [])))
          (ground (arith, nothing)) (ground (arith, nothing)))
        (finishes e.sender)
