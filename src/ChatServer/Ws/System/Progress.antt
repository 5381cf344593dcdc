-- ===== src/ChatServer/Ws/System/Progress.antt =====
-- What keeps a busy task of ws.rs from its next move: only the lock of `auth`, while a denied client
-- has not taken its rejection. The other locks are never held between two steps.
use e2e_chat_rs.ChatServer.Ws.System.Authorizing.{
  holds_auth, AuthLock, Reach-AuthLock, Meanwhile, denied_client_blocks,
}
use e2e_chat_rs.Prelude.{
  ℕ, ◌≡◌, refl, true, false, Option, List, [], ◌∷◌, Result-cases, Bool-cases, inl, inr, ◌⊎◌, subst,
  sym,
}
use mathlib.Core.WellFounded.{Acc}
use e2e_chat_rs.ChatServer.Ws.System.{
  Pc, reading, looping, ended, departing, disconnecting, leaving, reporting, rejected, delivering,
  dropping, flushing, accepted, routing, announcing, inserting, connecting, authorizing, delivery,
  Move, refusing, authorizes, denies, refuses, connects, turns_away, inserts, announces, routes,
  misroutes, accepts, rejects, reports, collects, finishes, moves_on, sends, overflows, drops,
  leaves, disconnects, was_gone, departs, MessageRouter, EventHook, AuthProvider, Channels,
  WireEvent, ServerState, ClientId, OutboxDelivery, World, AuthError, Reach,
}
use e2e_chat_rs.ChatServer.Ws.System.Resting.{at_rest, Later, Later-Acc}

module _ {R H A S : Type 0} (m : MessageRouter R) (hook : EventHook H) (auth : AuthProvider A)
    (channels : Channels S ℕ) (from_str : List ℕ → Option WireEvent) where
  abbrev pub CanMove : ℕ → ServerState R H A S ℕ → Pc → Type 0
  CanMove i s p =
      (t : ServerState R H A S ℕ) × (q : Pc) × Move m hook auth channels from_str i s p t q

  delivering_moves :
      (i : ℕ) (s : ServerState R H A S ℕ) (id : ClientId) (h : ℕ) (to : ClientId)
      (events : List WireEvent) (ds : List (OutboxDelivery ℕ))
      → CanMove i s (delivering id (delivery h to events ∷ ds))
  delivering_moves i s id h to [] ds = (_, _, moves_on id h to ds)
  delivering_moves i s id h to (event ∷ events) ds =
      elim (Bool-cases (channels.try_send h event s.channels).0) [
        | inl room ↦ (_, _, sends id h to event events ds room)
        | inr full ↦ (_, _, overflows id h to event events ds full)
      ]

  authorizing_moves :
      (i : ℕ) (s : ServerState R H A S ℕ) (id : ClientId)
      → s.auth_locked ≡ false
      → CanMove i s (authorizing id)
  authorizing_moves i s id free = elim (Result-cases (auth.authorize_connect s.auth id).0) [
    | inl (u, e) ↦ (_, _, authorizes id free e)
    | inr (x, e) ↦ (_, _, denies id x free e)
  ]

  busy_moves :
      (i : ℕ) (s : ServerState R H A S ℕ) (p : Pc)
      → at_rest p ≡ false
      → CanMove i s p ⊎ ((id : ClientId) × (p ≡ authorizing id) × (s.auth_locked ≡ true))
  busy_moves i s reading busy = absurd cc
  busy_moves i s (looping id) busy = absurd cc
  busy_moves i s (refusing id reason) busy = absurd cc
  busy_moves i s ended busy = absurd cc
  busy_moves i s (authorizing id) busy = elim (Bool-cases s.auth_locked) [
    | inl held ↦ inr (id, refl, held)
    | inr free ↦ inl (authorizing_moves i s id free)
  ]
  busy_moves i s (connecting id) busy = elim (Result-cases (m.connect s.router id).0) [
    | inl (u, e) ↦ inl (_, _, connects id e)
    | inr (x, e) ↦ inl (_, _, turns_away id x e)
  ]
  busy_moves i s (inserting id) busy = inl (_, _, inserts id)
  busy_moves i s (announcing id) busy = inl (_, _, announces id)
  busy_moves i s (routing id event) busy = elim (Result-cases (m.route s.router id event).0) [
    | inl (u, e) ↦ inl (_, _, routes id event e)
    | inr (x, e) ↦ inl (_, _, misroutes id event x e)
  ]
  busy_moves i s (accepted id event) busy = inl (_, _, accepts id event)
  busy_moves i s (rejected id event e) busy = inl (_, _, rejects id event e)
  busy_moves i s (reporting id event e) busy = inl (_, _, reports id event e)
  busy_moves i s (flushing id targets) busy = inl (_, _, collects id targets)
  busy_moves i s (delivering id []) busy = inl (_, _, finishes id)
  busy_moves i s (delivering id (d ∷ ds)) busy =
      inl (delivering_moves i s id d.handle d.client_id d.events ds)
  busy_moves i s (dropping id slow ds) busy = inl (_, _, drops id slow ds)
  busy_moves i s (leaving id) busy = inl (_, _, leaves id)
  busy_moves i s (disconnecting id) busy = elim (Result-cases (m.disconnect s.router id).0) [
    | inl (u, e) ↦ inl (_, _, disconnects id e)
    | inr (x, e) ↦ inl (_, _, was_gone id x e)
  ]
  busy_moves i s (departing id) busy = inl (_, _, departs id)

  -- The task waits for the lock of `auth`, which task `j` holds until its socket has taken a
  -- rejection; then it can move.
  abbrev pub WaitsForAuth : ℕ → World R H A S → Type 0
  WaitsForAuth i w =
      (id : ClientId) × (j : ℕ) × (denied : ClientId) × (reason : AuthError) × (w.pc i
        ≡ authorizing id)
      × (w.pc j ≡ refusing denied reason)
      × (t : ServerState R H A S ℕ) × Move m hook auth channels from_str j w.shared (w.pc j) t ended
      × CanMove i t (w.pc i)

  holder_refuses :
      (p : Pc)
      → holds_auth p ≡ true
      → (id : ClientId) × (reason : AuthError) × (p ≡ refusing id reason)
  holder_refuses (refusing id reason) h = (id, reason, refl)
  holder_refuses _ h = absurd cc

  waits_for_holder :
      (i : ℕ) (w : World R H A S) (id : ClientId)
      → AuthLock w
      → w.pc i ≡ authorizing id
      → w.shared.auth_locked ≡ true
      → WaitsForAuth i w
  waits_for_holder i w id inv at held =
      let (j, holds) = inv.holder held in
      let (denied, reason, sends_it) = holder_refuses (w.pc j) holds in
      let t : ServerState R H A S ℕ = record (w.shared) { auth_locked = false } in
      (
        id,
        j,
        denied,
        reason,
        at,
        sends_it,
        t,
        subst (λ p. Move m hook auth channels from_str j w.shared p t ended) (sym sends_it)
            (refuses denied reason),
        subst (λ p. CanMove i t p) (sym at) (authorizing_moves i t id refl),
      )

  -- A task of the relay that is busy, from the hello to its loop, from an event back to its loop,
  -- or from the end of its loop on, makes only finitely many moves until it waits for its socket
  -- again or has ended, whatever state the other tasks leave before each of them. In every state
  -- that the connections of a relay reach, in any interleaving, it can make the next move, unless
  -- it waits for the lock of the authorization while another task, which holds that lock, sends a
  -- rejection to its own socket; when that is done, it can move. As long as that rejection is not
  -- taken, no task that waits to be authorized gets on, whatever steps the others make. The lock
  -- is free at first; the other locks, which no task holds between two steps, are not steps of
  -- their own.
  pub busy_tasks_rest :
      (start : ServerState R H A S ℕ) {w : World R H A S}
      → start.auth_locked ≡ false
      → Reach m hook auth channels from_str start w
      → ((p : Pc) → Acc (Later m hook auth channels from_str) p)
        × ((i : ℕ) → at_rest (w.pc i) ≡ false → CanMove i w.shared (w.pc i) ⊎ WaitsForAuth i w)
        × ((i j : ℕ) (id : ClientId) (x : World R H A S)
            → holds_auth (w.pc j) ≡ true
            → w.pc i ≡ authorizing id
            → Meanwhile m hook auth channels from_str j w x
            → x.pc i ≡ authorizing id)
  busy_tasks_rest start {w} free r = (
    Later-Acc m hook auth channels from_str,
    λ i busy. elim (busy_moves i w.shared (w.pc i) busy) [
      | inl going ↦ inl going
      | inr (id, at, held) ↦ inr (
          waits_for_holder i w id (Reach-AuthLock m hook auth channels from_str start free r) at
            held)
    ],
    λ i j id x holds waits on.
        denied_client_blocks m hook auth channels from_str start i j id free r holds waits on,
  )
