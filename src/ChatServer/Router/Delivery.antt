-- ===== src/ChatServer/Router/Delivery.antt =====
-- Histories of a router that keeps its contract, and what they deliver to a client.
use e2e_chat_rs.Prelude.{
  ap, sym, ◌∙◌, ◌≡◌, refl, some, List, [], ◌∷◌, ◌++◌, ◌==◌, if◌then◌else◌, ok, err, arith, All, ◌≢◌,
}
use e2e_chat_rs.ChatCore.Types.{ClientId, ClientId_eq}
use e2e_chat_rs.ChatCore.Event.{WireEvent}
use e2e_chat_rs.ChatCore.Service.{MessageRouter}
use e2e_chat_rs.ChatServer.Router.Contract.{View, delivered, Implements, view, in_memory-Implements}
use e2e_chat_rs.ChatServer.Router.{InMemoryRouter, in_memory}
use mathlib.Core.List.{append-nil, append_assoc}

splice :
    (given later last q mid new next : List WireEvent)
    → later ++ last ≡ mid ++ next
    → given ++ mid ≡ q ++ new
    → (given ++ later) ++ last ≡ q ++ (new ++ next)
splice given later last q mid new next rest moved =
    append_assoc given later last
    ∙ ap (◌++◌ given) rest
    ∙ sym (append_assoc given mid next)
    ∙ ap (λ xs. xs ++ next) moved
    ∙ append_assoc q new next

pub data Request : Type 0 where
  connects disconnects : (client_id : ClientId) → Request
  routes : (connection_id : ClientId) (event : WireEvent) → Request
  drains : (client_id : ClientId) → Request

-- The request is not a disconnect of the client.
abbrev pub Keeps : ClientId → Request → Type 0
Keeps j (disconnects id) = id ≢ j
Keeps j _ = Unit

module _ {R : Type 0} (m : MessageRouter R) where
  unfoldable pub after : Request → R → R
  after (connects id) r = (m.connect r id).1
  after (disconnects id) r = (m.disconnect r id).1
  after (routes id event) r = (m.route r id event).1
  after (drains id) r = (m.drain_outbox r id).1

  -- What a request takes out of the outbox of `j`, and what it accepts for `j`.
  unfoldable pub drained : ClientId → Request → R → List WireEvent
  drained j (drains id) r = if id == j then (m.drain_outbox r id).0 else []
  drained j _ r = []

  unfoldable pub queued : ClientId → Request → R → List WireEvent
  queued j (routes id event) r = elim (m.route r id event).0 [
    | ok _ ↦ delivered event j
    | err _ ↦ []
  ]
  queued j _ r = []

  unfoldable pub after_all : List Request → R → R
  after_all [] r = r
  after_all (q ∷ qs) r = after_all qs (after q r)

  unfoldable pub all_drained : ClientId → List Request → R → List WireEvent
  all_drained j [] r = []
  all_drained j (q ∷ qs) r = drained j q r ++ all_drained j qs (after q r)

  unfoldable pub all_queued : ClientId → List Request → R → List WireEvent
  all_queued j [] r = []
  all_queued j (q ∷ qs) r = queued j q r ++ all_queued j qs (after q r)

  module _ (view : R → View) (law : Implements m view) (j : ClientId) where
    -- One request moves the front of the queue to the client, and new events to its end.
    abbrev Moves : List WireEvent → Request → R → Type 0
    Moves q req r =
        (q' : List WireEvent) × (view (after req r) j ≡ some q')
        × (drained j req r ++ q' ≡ q ++ queued j req r)

    after-Moves :
        (q : List WireEvent) (req : Request) (r : R)
        → Keeps j req
        → view r j ≡ some q
        → Moves q req r
    unfolding after drained queued
    after-Moves q (connects id) r keeps h =
        (q, ground (arith, law.connects r id, (law.connects r id).1 j), rw append-nil)
    after-Moves q (disconnects id) r keeps h =
        (q, ground (arith, law.disconnects r id, (law.disconnects r id).1 j), rw append-nil)
    after-Moves q (routes id event) r keeps h = (
      q ++ queued j (routes id event) r,
      ground (arith, law.routes r id event, (law.routes r id event).1 j, append-nil q),
      refl,
    )
    after-Moves q (drains id) r keeps h = (
      (if id == j then [] else q),
      ground (arith, law.drains r id, (law.drains r id).1 j),
      ground (arith, law.drains r id, append-nil q),
    )

    delivery :
        (q : List WireEvent) (reqs : List Request) (r : R)
        → All (Keeps j) reqs
        → view r j ≡ some q
        → (q' : List WireEvent) × (view (after_all reqs r) j ≡ some q')
          × (all_drained j reqs r ++ q' ≡ q ++ all_queued j reqs r)
    unfolding after_all all_drained all_queued
    delivery q [] r keeps h = (q, h, rw append-nil)
    delivery q (req ∷ reqs) r keeps h =
        let (mid, there, moved) = after-Moves q req r keeps.0 h in
        let (last, left, rest) = delivery mid reqs (after req r) keeps.1 there in
        (
          last,
          left,
          splice (drained j req r) (all_drained j reqs (after req r)) last q mid (queued j req r)
              (all_queued j reqs (after req r)) rest moved,
        )

-- In any history of connects, disconnects, routed events and drains of the in-memory router, from
-- any state in which a client is connected and in which it does not disconnect: it stays
-- connected, and what it has been given by the drains and what still waits in its outbox are, in
-- order, what was waiting at first and, for each event that the router has accepted since, the
-- event if it is for the client, and its acknowledgement if it is a message of the client. Nothing
-- is lost, duplicated or reordered.
pub nothing_lost :
    (j : ClientId) (q : List WireEvent) (reqs : List Request) (r : InMemoryRouter)
    → All (Keeps j) reqs
    → view r j ≡ some q
    → (q' : List WireEvent) × (view (after_all in_memory reqs r) j ≡ some q')
      × (all_drained in_memory j reqs r ++ q' ≡ q ++ all_queued in_memory j reqs r)
nothing_lost j q reqs r keeps there =
    delivery in_memory view in_memory-Implements j q reqs r keeps there
