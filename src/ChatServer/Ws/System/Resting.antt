-- ===== src/ChatServer/Ws/System/Resting.antt =====
-- The moves of a task of ws.rs between two waits for its socket: a task is busy from the hello until
-- its loop, from a message until it is back in the loop, and from there until its end.
use e2e_chat_rs.Prelude.{
  ℕ, ◌≡◌, refl, Bool, true, false, Option, List, [], ◌∷◌, Bool-cases, inl, inr,
}
use mathlib.Core.WellFounded.{Acc}
use e2e_chat_rs.ChatServer.Ws.System.{
  Pc, reading, looping, ended, departing, disconnecting, leaving, reporting, rejected, delivering,
  dropping, flushing, accepted, routing, announcing, inserting, connecting, authorizing,
  after_rejection, delivery, Move, refusing, authorizes, denies, connects, turns_away, inserts,
  announces, routes, misroutes, accepts, rejects, reports, collects, finishes, moves_on, sends,
  overflows, drops, leaves, disconnects, was_gone, departs, MessageRouter, EventHook, AuthProvider,
  Channels, WireEvent, ServerState, ClientId, RouterError, should_report_routing_error,
  OutboxDelivery, delivery_targets, collect,
}

-- The task waits for its socket, or has ended.
abbrev pub at_rest : Pc → Bool
at_rest reading = true
at_rest (refusing id reason) = true
at_rest (looping id) = true
at_rest ended = true
at_rest _ = false

module _ {R H A S : Type 0} (m : MessageRouter R) (hook : EventHook H) (auth : AuthProvider A)
    (channels : Channels S ℕ) (from_str : List ℕ → Option WireEvent) where
  -- A busy task moves from `p` to `q`, in whatever state the others have left.
  pub data Later (q p : Pc) : Type 0 where
    goes :
        (i : ℕ) {s t : ServerState R H A S ℕ}
        → at_rest p ≡ false
        → Move m hook auth channels from_str i s p t q
        → Later q p

  rest-Acc : (p : Pc) → at_rest p ≡ true → Acc Later p
  rest-Acc p rests = Acc.intro p (λ q l. elim l [ goes i busy mv ↦ absurd cc ])

  departs-Acc : (id : ClientId) (q : Pc) → Later q (departing id) → Acc Later q
  departs-Acc id q (goes i busy (departs _)) = rest-Acc ended refl

  disconnects-Acc : (id : ClientId) (q : Pc) → Later q (disconnecting id) → Acc Later q
  disconnects-Acc id q (goes i busy (disconnects _ _)) = Acc.intro (departing id) (departs-Acc id)
  disconnects-Acc id q (goes i busy (was_gone _ _ _)) = rest-Acc ended refl

  leaves-Acc : (id : ClientId) (q : Pc) → Later q (leaving id) → Acc Later q
  leaves-Acc id q (goes i busy (leaves _)) = Acc.intro (disconnecting id) (disconnects-Acc id)

  reports-Acc :
      (id : ClientId) (event : WireEvent) (e : RouterError) (q : Pc)
      → Later q (reporting id event e)
      → Acc Later q
  reports-Acc id event e q (goes i busy (reports _ _ _)) = rest-Acc (looping id) refl

  after_rejection-Acc :
      (id : ClientId) (event : WireEvent) (e : RouterError) → Acc Later (after_rejection id event e)
  after_rejection-Acc id event e = elim (Bool-cases (should_report_routing_error event e)) [
    | inl yes_report ↦ rw yes_report (Acc.intro (reporting id event e) (reports-Acc id event e))
    | inr no_report ↦ rw no_report (rest-Acc (looping id) refl)
  ]

  rejects-Acc :
      (id : ClientId) (event : WireEvent) (e : RouterError) (q : Pc)
      → Later q (rejected id event e)
      → Acc Later q
  rejects-Acc id event e q (goes i busy (rejects _ _ _)) = after_rejection-Acc id event e

  drops-Acc :
      (id slow : ClientId) (ds : List (OutboxDelivery ℕ))
      → Acc Later (delivering id ds)
      → (q : Pc) → Later q (dropping id slow ds)
      → Acc Later q
  drops-Acc id slow ds rest q (goes i busy (drops _ _ _)) = rest

  -- One delivery, once those behind it are known to end.
  delivery-Acc :
      (id : ClientId) (h : ℕ) (to : ClientId) (events : List WireEvent)
      (ds : List (OutboxDelivery ℕ))
      → Acc Later (delivering id ds)
      → (q : Pc) → Later q (delivering id (delivery h to events ∷ ds))
      → Acc Later q
  delivery-Acc id h to [] ds rest q (goes i busy (moves_on _ _ _ _)) = rest
  delivery-Acc id h to (event ∷ events) ds rest q (goes i busy (sends _ _ _ _ _ _ _)) =
      Acc.intro (delivering id (delivery h to events ∷ ds)) (delivery-Acc id h to events ds rest)
  delivery-Acc id h to (event ∷ events) ds rest q (goes i busy (overflows _ _ _ _ _ _ _)) =
      Acc.intro (dropping id to ds) (drops-Acc id to ds rest)

  finishes-Acc : (id : ClientId) (q : Pc) → Later q (delivering id []) → Acc Later q
  finishes-Acc id q (goes i busy (finishes _)) = rest-Acc (looping id) refl

  delivering-Acc : (id : ClientId) (ds : List (OutboxDelivery ℕ)) → Acc Later (delivering id ds)
  delivering-Acc id [] = Acc.intro (delivering id []) (finishes-Acc id)
  delivering-Acc id (d ∷ ds) =
      Acc.intro (delivering id (d ∷ ds))
        (delivery-Acc id d.handle d.client_id d.events ds (delivering-Acc id ds))

  -- The flush takes out any finite list of deliveries.
  collected-Acc :
      (id : ClientId) (targets : List ClientId) (i : ℕ) (s t : ServerState R H A S ℕ) (q : Pc)
      → Move m hook auth channels from_str i s (flushing id targets) t q
      → Acc Later q
  collected-Acc id targets i s t q (collects _ _) =
      delivering-Acc id (collect m s.connections targets s.router).0

  collects-Acc :
      (id : ClientId) (targets : List ClientId) (q : Pc)
      → Later q (flushing id targets)
      → Acc Later q
  collects-Acc id targets q (goes i {s} {t} busy mv) = collected-Acc id targets i s t q mv

  accepts-Acc :
      (id : ClientId) (event : WireEvent) (q : Pc) → Later q (accepted id event) → Acc Later q
  accepts-Acc id event q (goes i busy (accepts _ _)) =
      Acc.intro (flushing id (delivery_targets id event))
        (collects-Acc id (delivery_targets id event))

  routes-Acc :
      (id : ClientId) (event : WireEvent) (q : Pc) → Later q (routing id event) → Acc Later q
  routes-Acc id event q (goes i busy (routes _ _ _)) =
      Acc.intro (accepted id event) (accepts-Acc id event)
  routes-Acc id event q (goes i busy (misroutes _ _ e _)) =
      Acc.intro (rejected id event e) (rejects-Acc id event e)

  announces-Acc : (id : ClientId) (q : Pc) → Later q (announcing id) → Acc Later q
  announces-Acc id q (goes i busy (announces _)) = rest-Acc (looping id) refl

  inserts-Acc : (id : ClientId) (q : Pc) → Later q (inserting id) → Acc Later q
  inserts-Acc id q (goes i busy (inserts _)) = Acc.intro (announcing id) (announces-Acc id)

  connects-Acc : (id : ClientId) (q : Pc) → Later q (connecting id) → Acc Later q
  connects-Acc id q (goes i busy (connects _ _)) = Acc.intro (inserting id) (inserts-Acc id)
  connects-Acc id q (goes i busy (turns_away _ _ _)) = rest-Acc ended refl

  authorizes-Acc : (id : ClientId) (q : Pc) → Later q (authorizing id) → Acc Later q
  authorizes-Acc id q (goes i busy (authorizes _ _ _)) = Acc.intro (connecting id) (connects-Acc id)
  authorizes-Acc id q (goes i busy (denies _ e _ _)) = rest-Acc (refusing id e) refl

  pub Later-Acc : (p : Pc) → Acc Later p
  Later-Acc reading = rest-Acc reading refl
  Later-Acc (authorizing id) = Acc.intro (authorizing id) (authorizes-Acc id)
  Later-Acc (refusing id reason) = rest-Acc (refusing id reason) refl
  Later-Acc (connecting id) = Acc.intro (connecting id) (connects-Acc id)
  Later-Acc (inserting id) = Acc.intro (inserting id) (inserts-Acc id)
  Later-Acc (announcing id) = Acc.intro (announcing id) (announces-Acc id)
  Later-Acc (looping id) = rest-Acc (looping id) refl
  Later-Acc (routing id event) = Acc.intro (routing id event) (routes-Acc id event)
  Later-Acc (accepted id event) = Acc.intro (accepted id event) (accepts-Acc id event)
  Later-Acc (rejected id event e) = Acc.intro (rejected id event e) (rejects-Acc id event e)
  Later-Acc (reporting id event e) = Acc.intro (reporting id event e) (reports-Acc id event e)
  Later-Acc (flushing id targets) = Acc.intro (flushing id targets) (collects-Acc id targets)
  Later-Acc (delivering id ds) = delivering-Acc id ds
  Later-Acc (dropping id slow ds) =
      Acc.intro (dropping id slow ds) (drops-Acc id slow ds (delivering-Acc id ds))
  Later-Acc (leaving id) = Acc.intro (leaving id) (leaves-Acc id)
  Later-Acc (disconnecting id) = Acc.intro (disconnecting id) (disconnects-Acc id)
  Later-Acc (departing id) = Acc.intro (departing id) (departs-Acc id)
  Later-Acc ended = rest-Acc ended refl
