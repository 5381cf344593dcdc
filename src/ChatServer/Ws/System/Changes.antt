-- ===== src/ChatServer/Ws/System/Changes.antt =====
-- What a step of ws.rs does to the clients of the router and to the connection map.
use e2e_chat_rs.Prelude.{
  ℕ, ◌≡◌, refl, Bool, true, false, Option, none, some, List, arith, ◌==◌, ℕ_eq, if◌then◌else◌,
}
use e2e_chat_rs.Prelude.Maps
use e2e_chat_rs.ChatCore.Types.{ClientId, ClientId_eq}
use e2e_chat_rs.ChatCore.Event.{WireEvent}
use e2e_chat_rs.ChatCore.Service.{MessageRouter, EventHook, AuthProvider}
use e2e_chat_rs.ChatServer.Router.Contract.{View, Implements}
use e2e_chat_rs.ChatServer.Ws.{Channels, ServerState}
use e2e_chat_rs.ChatServer.Ws.Presence.{route-Same, collect-Same}
use e2e_chat_rs.ChatServer.Ws.Tracking.{is_there}
use e2e_chat_rs.ChatServer.Ws.System.{
  Pc, reading, authorizing, refusing, connecting, inserting, announcing, looping, routing, accepted,
  rejected, reporting, flushing, delivering, dropping, leaving, disconnecting, departing, ended,
  Move, connects, turns_away, inserts, routes, misroutes, rejects, collects, drops, leaves,
  disconnects, was_gone,
}

-- The identity that a task has in the router.
abbrev pub owner : Pc → Option ClientId
owner reading = none
owner (authorizing id) = none
owner (refusing id reason) = none
owner (connecting id) = none
owner (departing id) = none
owner ended = none
owner (inserting id) = some id
owner (announcing id) = some id
owner (looping id) = some id
owner (routing id event) = some id
owner (accepted id event) = some id
owner (rejected id event reason) = some id
owner (reporting id event reason) = some id
owner (flushing id targets) = some id
owner (delivering id deliveries) = some id
owner (dropping id slow deliveries) = some id
owner (leaving id) = some id
owner (disconnecting id) = some id

-- The task has taken its handle off the map, and is still in the router.
abbrev pub is_off : Pc → Bool
is_off (disconnecting id) = true
is_off _ = false

-- What a move of task `i` does to the clients of the router and to the connection map.
pub data Change {R H A S : Type 0} (view : R → View) (i : ℕ) (s t : ServerState R H A S ℕ)
    (p q : Pc) : Type 0 where
  quiet :
      ((j : ClientId) → is_there (view t.router j) ≡ is_there (view s.router j))
      → ((j : ClientId) (h : ℕ)
          → Maps.get t.connections j ≡ some h
          → Maps.get s.connections j ≡ some h)
      → owner q ≡ owner p
      → is_off q ≡ false
      → Change view i s t p q
  enters :
      (id : ClientId)
      → owner p ≡ none
      → owner q ≡ some id
      → is_off q ≡ false
      → is_there (view s.router id) ≡ false
      → ((j : ClientId)
          → is_there (view t.router j) ≡ (if id == j then true else is_there (view s.router j)))
      → t.connections ≡ s.connections
      → Change view i s t p q
  lists :
      (id : ClientId)
      → owner p ≡ some id
      → owner q ≡ some id
      → is_off p ≡ false
      → is_off q ≡ false
      → t.router ≡ s.router
      → ((j : ClientId)
          → Maps.get t.connections j ≡ (if id == j then some i else Maps.get s.connections j))
      → Change view i s t p q
  delists :
      (id : ClientId)
      → owner p ≡ some id
      → owner q ≡ some id
      → t.router ≡ s.router
      → ((j : ClientId)
          → Maps.get t.connections j ≡ (if id == j then none else Maps.get s.connections j))
      → Change view i s t p q
  exits :
      (id : ClientId)
      → owner p ≡ some id
      → owner q ≡ none
      → is_off p ≡ true
      → ((j : ClientId)
          → is_there (view t.router j) ≡ (if id == j then false else is_there (view s.router j)))
      → t.connections ≡ s.connections
      → Change view i s t p q

module _ {R H A S : Type 0} (m : MessageRouter R) (hook : EventHook H) (auth : AuthProvider A)
    (channels : Channels S ℕ) (from_str : List ℕ → Option WireEvent) (view : R → View)
    (law : Implements m view) where
  pub Move-Change :
      (i : ℕ) {s t : ServerState R H A S ℕ} {p q : Pc}
      → Move m hook auth channels from_str i s p t q
      → Change view i s t p q
  Move-Change i {s} (connects id e) =
      enters id refl refl refl (ground (arith, law.connects s.router id))
        (λ j. ground (arith, law.connects s.router id, (law.connects s.router id).1 j)) refl
  Move-Change i {s} (turns_away id x e) =
      quiet (λ j. ground (arith, law.connects s.router id, (law.connects s.router id).1 j))
        (λ j h g. g) refl refl
  Move-Change i {s} (inserts id) =
      lists id refl refl refl refl refl (λ j. Maps.get-insert s.connections id j i)
  Move-Change i {s} (routes id event e) =
      quiet (route-Same m view law s.router id event) (λ j h g. g) refl refl
  Move-Change i {s} (misroutes id event x e) =
      quiet (route-Same m view law s.router id event) (λ j h g. g) refl refl
  Move-Change i {s} (rejects id event x) =
      quiet (λ j. refl) (λ j h g. g) (ground arith) (ground arith)
  Move-Change i {s} (collects id targets) =
      quiet (collect-Same m view law s.connections targets s.router) (λ j h g. g) refl refl
  Move-Change i {s} (drops id slow ds) =
      quiet (λ j. refl) (λ j h g. ground (arith, Maps.get-remove s.connections slow j)) refl refl
  Move-Change i {s} (leaves id) =
      delists id refl refl refl (λ j. Maps.get-remove s.connections id j)
  Move-Change i {s} (disconnects id e) =
      exits id refl refl refl
        (λ j. ground (arith, law.disconnects s.router id, (law.disconnects s.router id).1 j)) refl
  Move-Change i {s} (was_gone id x e) =
      exits id refl refl refl
        (λ j. ground (arith, law.disconnects s.router id, (law.disconnects s.router id).1 j)) refl
  Move-Change i _ = quiet (λ j. refl) (λ j h g. g) refl refl
