-- ===== src/ChatServer/Ws/Addressed/Reached.antt =====
-- Whatever the order of the steps of ws.rs, nobody is sent what is meant for another.
use e2e_chat_rs.ChatServer.Ws.{Channels, ServerState}
use e2e_chat_rs.ChatCore.Service.{EventHook, AuthProvider}
use e2e_chat_rs.ChatServer.Ws.Addressed.Moves.{
  Move-Mailed, Move-Held, Move-Queued, recv-Queued, Move-Meant, drop_receiver-Queued,
}
use e2e_chat_rs.ChatCore.Types.{ClientId_eq, ClientId}
use e2e_chat_rs.ChatServer.Ws.Addressed.{
  identity, Meant, Mailed, Held, Queued, pending, is_for, is_empty, subst, sym, WireEvent,
  MessageRouter, OutboxDelivery,
}
use e2e_chat_rs.ChatServer.Router.Contract.{View, Implements}
use e2e_chat_rs.Prelude.{
  ℕ, ◌≡◌, ◌≢◌, refl, true, Option, none, some, List, [], ◌∷◌, arith, inl, inr, ◌==◌, if◌then◌else◌,
  all, ℕ_eq, ◌⊎◌, Bool-cases,
}
use e2e_chat_rs.Prelude.Maps
use e2e_chat_rs.ChatServer.Ws.Bounded.{IsReceived, IsPerHandle}
use e2e_chat_rs.ChatServer.Ws.System.{
  Pc, reading, authorizing, reads_hello, rejects, Step, moves, writes, loses_writer, begins, later,
  Reach, World, update, Move,
}

-- Where `who` has the identity that each task has been told, every event that waits for a client
-- is meant for it: in its outbox, in a flush, and in the channel of its task.
record Addressed {R S : Type 0} (view : R → View) (queue : S → ℕ → List WireEvent)
    (who : ℕ → Option ClientId) {H A : Type 0} (w : World R H A S) : Type 0 where
  told : (i : ℕ) (id : ClientId) → identity (w.pc i) ≡ some id → who i ≡ some id
  untold : (i : ℕ) → w.pc i ≡ reading → who i ≡ none
  mail : Mailed view w.shared.router
  held : Held who w.shared.connections
  queued : Queued who queue w.shared.channels
  meant : (i : ℕ) → Meant who (pending (w.pc i))

only_empty : (q : List WireEvent) → is_empty q ≡ true → q ≡ []
only_empty [] h = refl
only_empty (x ∷ xs) h = absurd cc

abbrev learn : (ℕ → Option ClientId) → ℕ → ClientId → ℕ → Option ClientId
learn who i id j = if i == j then some id else who j

learn-Meant :
    (who : ℕ → Option ClientId) (i : ℕ) (id : ClientId)
    → who i ≡ none
    → (ds : List (OutboxDelivery ℕ)) → Meant who ds
    → Meant (learn who i id) ds
learn-Meant who i id unknown [] meant = tt
learn-Meant who i id unknown (d ∷ ds) (told, meant, rest) =
    (ground arith, meant, learn-Meant who i id unknown ds rest)

-- A task that moves has the deliveries of its new place, and the others have theirs.
pending-update :
    (pc : ℕ → Pc) (i : ℕ) (q : Pc) (j : ℕ)
    → (pending (update pc i q j) ≡ pending q) ⊎ (pending (update pc i q j) ≡ pending (pc j))
pending-update pc i q j = elim (Bool-cases (i == j)) [
  | inl same ↦ inl (ground arith)
  | inr other ↦ inr (ground arith)
]

update-Meant :
    (who : ℕ → Option ClientId) (pc : ℕ → Pc) (i : ℕ) (q : Pc)
    → ((j : ℕ) → Meant who (pending (pc j)))
    → Meant who (pending q)
    → (j : ℕ) → Meant who (pending (update pc i q j))
update-Meant who pc i q meant here j = elim (pending-update pc i q j) [
  | inl e ↦ subst (λ ds. Meant who ds) (sym e) here
  | inr e ↦ subst (λ ds. Meant who ds) (sym e) (meant j)
]

module _ {R H A S : Type 0} (m : MessageRouter R) (hook : EventHook H) (auth : AuthProvider A)
    (channels : Channels S ℕ) (from_str : List ℕ → Option WireEvent) (view : R → View)
    (law : Implements m view) (queue : S → ℕ → List WireEvent) (queues : IsPerHandle channels queue)
    (reads : IsReceived channels queue) where
  -- A move tells the task an identity, or leaves it with the one that it has.
  data Told (i : ℕ) (s : ServerState R H A S ℕ) (p : Pc) (t : ServerState R H A S ℕ) (q : Pc)
      : Type 0 where
    now : (id : ClientId) → p ≡ reading → q ≡ authorizing id → t ≡ s → Told i s p t q
    before :
        ((id : ClientId) → identity q ≡ some id → identity p ≡ some id)
        → q ≢ reading
        → Told i s p t q

  Move-Told :
      (i : ℕ) {s t : ServerState R H A S ℕ} {p q : Pc}
      → Move m hook auth channels from_str i s p t q
      → Told i s p t q
  Move-Told i (reads_hello ms id said) = now id refl refl refl
  Move-Told i (rejects id event e) = before (λ j h. ground arith) (λ h. ground arith)
  Move-Told i _ = before (λ j h. cc) (λ h. cc)

  Move-Addressed :
      (who : ℕ → Option ClientId) (i : ℕ) (w : World R H A S) (t : ServerState R H A S ℕ) (q : Pc)
      → Move m hook auth channels from_str i w.shared (w.pc i) t q
      → Addressed view queue who w
      → (after : ℕ → Option ClientId) × Addressed view queue after
          (record { shared = t; pc = update w.pc i q })
  Move-Addressed who i w t q mv inv = elim (Move-Told i mv) [
    | now id waits goes same ↦ (
      learn who i id,
      record {
        told = λ j k h. ground (arith, inv.told j k);
        untold = λ j h. ground (arith, inv.untold j);
        mail = subst (λ (u : ServerState R H A S ℕ). Mailed view u.router) (sym same) inv.mail;
        held = λ k h got. ground (arith, inv.held k h, inv.untold i, same);
        queued = λ h.
            ground
              (arith, inv.queued h, inv.untold i, same, only_empty (queue w.shared.channels i));
        meant =
            update-Meant (learn who i id) w.pc i q
              (λ j. learn-Meant who i id (inv.untold i waits) (pending (w.pc j)) (inv.meant j))
              (subst (λ p. Meant (learn who i id) (pending p)) (sym goes) tt);
      },
    )
    | before keeps wakes ↦ (
      who,
      record {
        told = λ j k h. ground (arith, inv.told j k, keeps k);
        untold = λ j h. ground (arith, inv.untold j);
        mail = Move-Mailed m hook auth channels from_str view law queue queues who i mv inv.mail;
        held =
            Move-Held m hook auth channels from_str view law queue queues who i mv (inv.told i)
              inv.held;
        queued =
            Move-Queued m hook auth channels from_str view law queue queues who i mv (inv.told i)
              (inv.meant i) inv.queued;
        meant = update-Meant who w.pc i q inv.meant (
            Move-Meant m hook auth channels from_str view law queue queues who i mv inv.mail
              inv.held (inv.meant i));
      },
    )
  ]

  Step-Addressed :
      (who : ℕ → Option ClientId) {w x : World R H A S}
      → Step m hook auth channels from_str w x
      → Addressed view queue who w
      → (after : ℕ → Option ClientId) × Addressed view queue after x
  Step-Addressed who {w} (moves i {s} {p} mv) inv = Move-Addressed who i w s p mv inv
  Step-Addressed who {w} (writes i event spawned taken) inv = (
    who,
    record {
      told = inv.told;
      untold = inv.untold;
      mail = inv.mail;
      held = inv.held;
      queued =
          recv-Queued channels queue queues who reads i event w.shared.channels taken inv.queued;
      meant = inv.meant;
    },
  )
  Step-Addressed who {w} (loses_writer i spawned) inv = (
    who,
    record {
      told = inv.told;
      untold = inv.untold;
      mail = inv.mail;
      held = inv.held;
      queued = drop_receiver-Queued channels queue queues who reads i w.shared.channels inv.queued;
      meant = inv.meant;
    },
  )

  Reach-Addressed :
      (start : ServerState R H A S ℕ) {w : World R H A S}
      → ((id : ClientId) → view start.router id ≡ none)
      → ((id : ClientId) → Maps.get start.connections id ≡ none)
      → ((i : ℕ) → queue start.channels i ≡ [])
      → Reach m hook auth channels from_str start w
      → (who : ℕ → Option ClientId) × Addressed view queue who w
  Reach-Addressed start alone none_listed silent begins = (
    λ i. none,
    record {
      told = λ i id h. cc;
      untold = λ i h. refl;
      mail = λ id q h. ground (arith, alone id);
      held = λ id h got. ground (arith, none_listed id);
      queued = λ h. ground (arith, silent h);
      meant = λ i. tt;
    },
  )
  Reach-Addressed start alone none_listed silent (later r st) =
      let (who, inv) = Reach-Addressed start alone none_listed silent r in Step-Addressed who st inv

  -- In every state that the connections of a relay reach, in any interleaving of their steps and
  -- of their writers, which may end at any time, all events in the outbox of a client and all
  -- events in the channel of a task that has been told an identity are meant for that client: they
  -- name it as their recipient, or are acknowledgements or errors. Nobody is sent a message that
  -- is for another. The relay starts empty, the router implements the specification, and the
  -- channels are queues apart from each other, which may be full or have lost their receivers.
  pub no_stray_events :
      (start : ServerState R H A S ℕ) {w : World R H A S}
      → ((id : ClientId) → view start.router id ≡ none)
      → ((id : ClientId) → Maps.get start.connections id ≡ none)
      → ((i : ℕ) → queue start.channels i ≡ [])
      → Reach m hook auth channels from_str start w
      → ((id : ClientId) (outbox : List WireEvent)
          → view w.shared.router id ≡ some outbox
          → all (is_for id) outbox ≡ true)
        × ((i : ℕ) (id : ClientId)
            → identity (w.pc i) ≡ some id
            → all (is_for id) (queue w.shared.channels i) ≡ true)
  no_stray_events start {w} alone none_listed silent r =
      let (who, inv) = Reach-Addressed start alone none_listed silent r in
      (inv.mail, λ i id mine. ground (arith, inv.told i id mine, inv.queued i))
