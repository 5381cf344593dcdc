-- ===== src/ChatServer/Ws/Addressed/Moves.antt =====
-- What each step of ws.rs does to the events that wait.
use e2e_chat_rs.ChatServer.Ws.{
  Channels, WireEvent, EventHook, AuthProvider, ServerState, RouterError,
}
use e2e_chat_rs.ChatCore.Types.{ClientId_eq, ClientId}
use e2e_chat_rs.ChatServer.Ws.Bounded.{IsReceived}
use e2e_chat_rs.ChatServer.Ws.Addressed.{
  is_for, Queued, all-append, Option-cases, Mailed, identity, connect-Mailed, Held, Meant,
  route-Mailed, pending, collect-Mailed, collect-Meant, disconnect-Mailed, subst, sym,
  MessageRouter,
}
use e2e_chat_rs.ChatServer.Router.Contract.{View, Implements}
use e2e_chat_rs.ChatServer.Ws.Bounded.{IsPerHandle}
use e2e_chat_rs.Prelude.{
  ℕ, ◌≡◌, refl, true, Option, some, List, [], ◌∷◌, arith, inl, inr, ◌==◌, Bool-cases, ℕ_eq,
}
use e2e_chat_rs.Prelude.Maps
use e2e_chat_rs.ChatServer.Ws.System.{
  Pc, connects, turns_away, inserts, routes, misroutes, rejects, reports, collects, moves_on, sends,
  overflows, drops, leaves, disconnects, was_gone, Move, after_rejection,
}
use e2e_chat_rs.ChatServer.Ws.Socket.{routing_failed}

module _ {S : Type 0} (channels : Channels S ℕ) (queue : S → ℕ → List WireEvent)
    (queues : IsPerHandle channels queue) (who : ℕ → Option ClientId) where
  -- An event that is tried on the channel of a task for whose client it is meant.
  try_send-Queued :
      (h : ℕ) (id : ClientId) (event : WireEvent) (s : S)
      → who h ≡ some id
      → is_for id event ≡ true
      → Queued who queue s
      → Queued who queue (channels.try_send h event s).1
  try_send-Queued h id event s mine meant queued j = elim (Bool-cases (h == j)) [
    | inl same ↦ elim (Bool-cases (channels.try_send h event s).0) [
      | inl room ↦ ground (
        arith,
        queued h,
        queues.is_queue.sends h event s room,
        all-append (is_for id) (queue s h) (event ∷ []),
      )
      | inr full ↦ ground (arith, queued h, queues.is_queue.refuses h event s full)
    ]
    | inr other ↦ ground (arith, queued j, queues.others h j event s)
  ]

  send_close-Queued :
      (h : ℕ) (s : S) → Queued who queue s → Queued who queue (channels.send_close h s)
  send_close-Queued h s queued j = ground (arith, queued j, queues.is_queue.closes h j s)

  pub recv-Queued :
      IsReceived channels queue
      → (h : ℕ) (event : WireEvent) (s : S) → (channels.recv h s).0 ≡ some event
      → Queued who queue s
      → Queued who queue (channels.recv h s).1
  recv-Queued reads h event s taken queued j = elim (Bool-cases (h == j)) [
    | inl same ↦ elim (Option-cases (who h)) [
      | inl nobody ↦ ground (arith, queued h, reads.takes h event s taken)
      | inr (id, mine) ↦ ground (arith, queued h, reads.takes h event s taken)
    ]
    | inr other ↦ ground (arith, queued j, reads.keeps h j s)
  ]

  pub drop_receiver-Queued :
      IsReceived channels queue
      → (h : ℕ) (s : S) → Queued who queue s
      → Queued who queue (channels.drop_receiver h s)
  drop_receiver-Queued reads h s queued j = elim (Bool-cases (h == j)) [
    | inl same ↦ elim (Option-cases (who h)) [
      | inl nobody ↦ ground (arith, queued h, reads.empties h s)
      | inr (id, mine) ↦ ground (arith, queued h, reads.empties h s)
    ]
    | inr other ↦ ground (arith, queued j, reads.drop_keeps h j s)
  ]

module _ {R H A S : Type 0} (m : MessageRouter R) (hook : EventHook H) (auth : AuthProvider A)
    (channels : Channels S ℕ) (from_str : List ℕ → Option WireEvent) (view : R → View)
    (law : Implements m view) (queue : S → ℕ → List WireEvent) (queues : IsPerHandle channels queue)
    (who : ℕ → Option ClientId) (i : ℕ) where
  abbrev Moves : ServerState R H A S ℕ → Pc → ServerState R H A S ℕ → Pc → Type 0
  Moves s p t q = Move m hook auth channels from_str i s p t q

  pub Move-Mailed :
      {s t : ServerState R H A S ℕ} {p q : Pc}
      → Moves s p t q
      → Mailed view s.router
      → Mailed view t.router
  Move-Mailed {s} (connects id e) mail = connect-Mailed m view law s.router id mail
  Move-Mailed {s} (turns_away id x e) mail = connect-Mailed m view law s.router id mail
  Move-Mailed {s} (routes id event e) mail = route-Mailed m view law s.router id event mail
  Move-Mailed {s} (misroutes id event x e) mail = route-Mailed m view law s.router id event mail
  Move-Mailed {s} (collects id targets) mail =
      collect-Mailed m view law s.connections targets s.router mail
  Move-Mailed {s} (disconnects id e) mail = disconnect-Mailed m view law s.router id mail
  Move-Mailed {s} (was_gone id x e) mail = disconnect-Mailed m view law s.router id mail
  Move-Mailed _ mail = mail

  pub Move-Held :
      {s t : ServerState R H A S ℕ} {p q : Pc}
      → Moves s p t q
      → ((id : ClientId) → identity p ≡ some id → who i ≡ some id)
      → Held who s.connections
      → Held who t.connections
  Move-Held {s} (inserts id) mine held j h got =
      ground (arith, held j h, mine id refl, Maps.get-insert s.connections id j i)
  Move-Held {s} (drops id slow ds) mine held j h got =
      held j h (ground (arith, Maps.get-remove s.connections slow j))
  Move-Held {s} (leaves id) mine held j h got =
      held j h (ground (arith, Maps.get-remove s.connections id j))
  Move-Held _ mine held j h got = held j h got

  pub Move-Queued :
      {s t : ServerState R H A S ℕ} {p q : Pc}
      → Moves s p t q
      → ((id : ClientId) → identity p ≡ some id → who i ≡ some id)
      → Meant who (pending p)
      → Queued who queue s.channels
      → Queued who queue t.channels
  unfolding routing_failed
  Move-Queued {s} (reports id event e) mine meant queued =
      try_send-Queued channels queue queues who i id (routing_failed e) s.channels (mine id refl)
        refl queued
  Move-Queued {s} (sends id h to event events ds room) mine (told, meant, rest) queued =
      try_send-Queued channels queue queues who h to event s.channels told (ground arith) queued
  Move-Queued {s} (overflows id h to event events ds full) mine (told, meant, rest) queued =
      send_close-Queued channels queue queues who h (channels.try_send h event s.channels).1
        (try_send-Queued channels queue queues who h to event s.channels told (ground arith) queued)
  Move-Queued _ mine meant queued = queued

  pending-after_rejection :
      (id : ClientId) (event : WireEvent) (e : RouterError)
      → pending (after_rejection id event e) ≡ []
  pending-after_rejection id event e = ground arith

  pub Move-Meant :
      {s t : ServerState R H A S ℕ} {p q : Pc}
      → Moves s p t q
      → Mailed view s.router
      → Held who s.connections
      → Meant who (pending p)
      → Meant who (pending q)
  Move-Meant {s} (collects id targets) mail held meant =
      collect-Meant m view law who s.connections targets s.router mail held
  Move-Meant (rejects id event e) mail held meant =
      subst (λ ds. Meant who ds) (sym (pending-after_rejection id event e)) tt
  Move-Meant (moves_on id h to ds) mail held (told, meant, rest) = rest
  Move-Meant (sends id h to event events ds room) mail held (told, meant, rest) =
      (told, ground arith, rest)
  Move-Meant (overflows id h to event events ds full) mail held (told, meant, rest) = rest
  Move-Meant (drops id slow ds) mail held meant = meant
  Move-Meant _ mail held meant = tt
