-- ===== src/ChatServer/Ws/Addressed.antt =====
-- For whom the events are that wait anywhere in ws.rs: in an outbox, in a flush, in a channel.
pub mod Moves
pub mod Reached
use e2e_chat_rs.ChatCore.Service.{MessageRouter}
use e2e_chat_rs.ChatServer.Ws.{OutboxDelivery, collect}
use e2e_chat_rs.ChatCore.Types.{ClientId_eq, ClientId}
use e2e_chat_rs.Prelude.{
  ℕ, ◌≡◌, refl, Bool, true, false, Option, none, some, List, [], ◌∷◌, ◌++◌, ◌&&◌, all, All, arith,
  is_empty, ◌==◌, Option-cases, inl, inr, ◌⊎◌, subst, sym,
}
use e2e_chat_rs.Prelude.Maps
use e2e_chat_rs.Prelude.Maps.{HashMap}
use e2e_chat_rs.ChatServer.Router.Contract.{View, Implements, delivered}
use e2e_chat_rs.ChatServer.Ws.System.{
  Pc, reading, authorizing, refusing, connecting, inserting, announcing, looping, routing, accepted,
  rejected, reporting, flushing, delivering, dropping, leaving, disconnecting, departing, ended,
}
use e2e_chat_rs.ChatCore.Event.{WireEvent, client_hello, peer_key, encrypted_message, ack, error}

-- A client is meant to get an event: it is the recipient that the event names, or the event is one
-- of the relay's own.
abbrev pub is_for : ClientId → WireEvent → Bool
is_for id (client_hello client_id version) = false
is_for id (peer_key from to public_key) = to == id
is_for id (encrypted_message envelope) = envelope.recipient == id
is_for id (ack message_id) = true
is_for id (error code message) = true

-- The identity that a task has been told, while it lives.
abbrev pub identity : Pc → Option ClientId
identity reading = none
identity (authorizing id) = some id
identity (refusing id reason) = some id
identity (connecting id) = some id
identity (inserting id) = some id
identity (announcing id) = some id
identity (looping id) = some id
identity (routing id event) = some id
identity (accepted id event) = some id
identity (rejected id event reason) = some id
identity (reporting id event reason) = some id
identity (flushing id targets) = some id
identity (delivering id deliveries) = some id
identity (dropping id slow deliveries) = some id
identity (leaving id) = some id
identity (disconnecting id) = some id
identity (departing id) = some id
identity ended = none

-- What a task has taken out of outboxes and not sent yet.
abbrev pub pending : Pc → List (OutboxDelivery ℕ)
pending (delivering id deliveries) = deliveries
pending (dropping id slow deliveries) = deliveries
pending _ = []

abbrev pub meant_for : Option ClientId → List WireEvent → Bool
meant_for none events = is_empty events
meant_for (some id) events = all (is_for id) events

-- The outboxes, the connection map, the channels and a flush, where `who` has the identity that each
-- task has been told.
abbrev pub Mailed : {R : Type 0} → (R → View) → R → Type 0
Mailed view r =
    (id : ClientId) (outbox : List WireEvent)
    → view r id ≡ some outbox
    → all (is_for id) outbox ≡ true

abbrev pub Held : (ℕ → Option ClientId) → HashMap ClientId ℕ → Type 0
Held who connections = (id : ClientId) (h : ℕ) → Maps.get connections id ≡ some h → who h ≡ some id

abbrev pub Queued : {S : Type 0} → (ℕ → Option ClientId) → (S → ℕ → List WireEvent) → S → Type 0
Queued who queue s = (h : ℕ) → meant_for (who h) (queue s h) ≡ true

abbrev pub Meant : (ℕ → Option ClientId) → List (OutboxDelivery ℕ) → Type 0
Meant who [] = Unit
Meant who (d ∷ ds) =
    (who d.handle ≡ some d.client_id) × (all (is_for d.client_id) d.events ≡ true) × Meant who ds

pub all-append :
    (p : WireEvent → Bool) (xs ys : List WireEvent) → all p (xs ++ ys) ≡ (all p xs && all p ys)
all-append p [] ys = refl
all-append p (x ∷ xs) ys = ground (arith, all-append p xs ys)

-- What the router adds to an outbox is for its client.
pub all-delivered : (event : WireEvent) (j : ClientId) → all (is_for j) (delivered event j) ≡ true
all-delivered (client_hello client_id version) j = refl
all-delivered (peer_key from to public_key) j = ground arith
all-delivered (encrypted_message envelope) j = ground arith
all-delivered (ack message_id) j = refl
all-delivered (error code message) j = refl

pub list_cases :
    (xs : List WireEvent)
    → (xs ≡ []) ⊎ ((x : WireEvent) × (rest : List WireEvent) × (xs ≡ x ∷ rest))
list_cases [] = inl refl
list_cases (x ∷ xs) = inr (x, xs, refl)

module _ {R : Type 0} (m : MessageRouter R) (view : R → View) (law : Implements m view) where
  pub connect-Mailed : (r : R) (id : ClientId) → Mailed view r → Mailed view (m.connect r id).1
  connect-Mailed r id mail j q there = ground (arith, (law.connects r id).1 j, mail j q)

  pub disconnect-Mailed :
      (r : R) (id : ClientId) → Mailed view r → Mailed view (m.disconnect r id).1
  disconnect-Mailed r id mail j q there = ground (arith, (law.disconnects r id).1 j, mail j q)

  pub route-Mailed :
      (r : R) (id : ClientId) (event : WireEvent)
      → Mailed view r
      → Mailed view (m.route r id event).1
  route-Mailed r id event mail j q there = elim (Option-cases (view r j)) [
    | inl gone ↦ ground (arith, (law.routes r id event).1 j)
    | inr (box, e) ↦ ground (
      arith,
      (law.routes r id event).1 j,
      mail j box e,
      all-delivered event j,
      all-append (is_for j) box (delivered event j),
    )
  ]

  pub drain-Mailed : (r : R) (id : ClientId) → Mailed view r → Mailed view (m.drain_outbox r id).1
  drain-Mailed r id mail j q there = ground (arith, (law.drains r id).1 j, mail j q)

  pub drained-is_for :
      (r : R) (id : ClientId) → Mailed view r → all (is_for id) (m.drain_outbox r id).0 ≡ true
  drained-is_for r id mail = elim (Option-cases (view r id)) [
    | inl gone ↦ ground (arith, law.drains r id)
    | inr (box, e) ↦ ground (arith, law.drains r id, mail id box e)
  ]

  -- `collect` at one client more: absent, with an empty outbox, or with events.
  data Collected (connections : HashMap ClientId ℕ) (id : ClientId) (ids : List ClientId) (r : R)
      : Type 0 where
    absent :
        collect m connections (id ∷ ids) r ≡ collect m connections ids r
        → Collected connections id ids r
    idle :
        collect m connections (id ∷ ids) r ≡ collect m connections ids (m.drain_outbox r id).1
        → Collected connections id ids r
    busy :
        (h : ℕ)
        → Maps.get connections id ≡ some h
        → collect m connections (id ∷ ids) r ≡ (
          record { handle = h; client_id = id; events = (m.drain_outbox r id).0 }
              ∷ (collect m connections ids (m.drain_outbox r id).1).0,
          (collect m connections ids (m.drain_outbox r id).1).1,
        )
        → Collected connections id ids r

  collect-Collected :
      (connections : HashMap ClientId ℕ) (id : ClientId) (ids : List ClientId) (r : R)
      → Collected connections id ids r
  unfolding collect
  collect-Collected connections id ids r = elim (Option-cases (Maps.get connections id)) [
    | inl gone ↦ absent (ground arith)
    | inr (h, e) ↦ elim (list_cases (m.drain_outbox r id).0) [
      | inl empty ↦ idle (ground arith)
      | inr (x, xs, full) ↦ busy h e (ground arith)
    ]
  ]

  pub collect-Mailed :
      (connections : HashMap ClientId ℕ) (ids : List ClientId) (r : R)
      → Mailed view r
      → Mailed view (collect m connections ids r).1
  unfolding collect
  collect-Mailed connections [] r mail = mail
  collect-Mailed connections (id ∷ ids) r mail =
      let drained = drain-Mailed r id mail in
      let rest = collect-Mailed connections ids (m.drain_outbox r id).1 drained in
      elim (collect-Collected connections id ids r) [
        | absent e ↦ subst (λ c. Mailed view c.1) (sym e) (collect-Mailed connections ids r mail)
        | idle e ↦ subst (λ c. Mailed view c.1) (sym e) rest
        | busy h there e ↦ subst (λ c. Mailed view c.1) (sym e) rest
      ]

  pub collect-Meant :
      (who : ℕ → Option ClientId) (connections : HashMap ClientId ℕ) (ids : List ClientId) (r : R)
      → Mailed view r
      → Held who connections
      → Meant who (collect m connections ids r).0
  unfolding collect
  collect-Meant who connections [] r mail held = tt
  collect-Meant who connections (id ∷ ids) r mail held =
      let drained = drain-Mailed r id mail in
      let rest = collect-Meant who connections ids (m.drain_outbox r id).1 drained held in
      elim (collect-Collected connections id ids r) [
        | absent e ↦
            subst (λ c. Meant who c.0) (sym e) (collect-Meant who connections ids r mail held)
        | idle e ↦ subst (λ c. Meant who c.0) (sym e) rest
        | busy h there e ↦
            subst (λ c. Meant who c.0) (sym e) (held id h there, drained-is_for r id mail, rest)
      ]
