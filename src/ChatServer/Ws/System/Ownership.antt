-- ===== src/ChatServer/Ws/System/Ownership.antt =====
-- Which task of ws.rs an identity belongs to, whatever the order of steps.
use e2e_chat_rs.Prelude.{
  inl, inr, ℕ, ◌≡◌, sym, ◌∙◌, true, false, Option, none, some, List, arith, ◌==◌, ℕ_eq, Bool-cases,
}
use e2e_chat_rs.Prelude.Maps
use e2e_chat_rs.ChatCore.Types.{ClientId, ClientId_eq}
use e2e_chat_rs.ChatCore.Event.{WireEvent}
use e2e_chat_rs.ChatCore.Service.{MessageRouter, EventHook, AuthProvider}
use e2e_chat_rs.ChatServer.Router.Contract.{View, Implements}
use e2e_chat_rs.ChatServer.Ws.{Channels, ServerState}
use e2e_chat_rs.ChatServer.Ws.Tracking.{is_there}
use e2e_chat_rs.ChatServer.Ws.System.{
  Pc, World, update, Step, moves, writes, loses_writer, Reach, begins, later,
}
use e2e_chat_rs.ChatServer.Ws.System.Changes.{
  owner, is_off, Change, quiet, enters, lists, delists, exits, Move-Change,
}

-- Each identity of the router belongs to one task, and each handle of the connection map to the
-- task of its identity. A task that has taken its handle off is on its way out.
pub record Owned {R H A S : Type 0} (view : R → View) (w : World R H A S) : Type 0 where
  pub exclusive :
      (i j : ℕ) (id : ClientId) → owner (w.pc i) ≡ some id → owner (w.pc j) ≡ some id → i ≡ j
  pub present :
      (i : ℕ) (id : ClientId) → owner (w.pc i) ≡ some id → is_there (view w.shared.router id) ≡ true
  pub served :
      (id : ClientId)
      → is_there (view w.shared.router id) ≡ true
      → (i : ℕ) × (owner (w.pc i) ≡ some id)
  pub handles :
      (id : ClientId) (i : ℕ)
      → Maps.get w.shared.connections id ≡ some i
      → (owner (w.pc i) ≡ some id) × (is_off (w.pc i) ≡ false)

module _ {R H A S : Type 0} (view : R → View) (w : World R H A S) (i : ℕ)
    (t : ServerState R H A S ℕ) (q : Pc) (inv : Owned view w) where
  abbrev next : World R H A S
  next = record { shared = t; pc = update w.pc i q }

  Change-exclusive :
      Change view i w.shared t (w.pc i) q
      → (j k : ℕ) (id : ClientId) → owner (next.pc j) ≡ some id
      → owner (next.pc k) ≡ some id
      → j ≡ k
  Change-exclusive (quiet _ _ same _) j k id a b =
      ground (arith, inv.exclusive j k id, inv.exclusive i k id, inv.exclusive j i id)
  Change-exclusive (enters e _ got _ absent _ _) j k id a b =
      ground (arith, inv.exclusive j k id, inv.present k id, inv.present j id)
  Change-exclusive (lists e own got _ _ _ _) j k id a b =
      ground (arith, inv.exclusive j k id, inv.exclusive i k id, inv.exclusive j i id)
  Change-exclusive (delists e own got _ _) j k id a b =
      ground (arith, inv.exclusive j k id, inv.exclusive i k id, inv.exclusive j i id)
  Change-exclusive (exits e _ got _ _ _) j k id a b = ground (arith, inv.exclusive j k id)

  Change-present :
      Change view i w.shared t (w.pc i) q
      → (j : ℕ) (id : ClientId) → owner (next.pc j) ≡ some id
      → is_there (view t.router id) ≡ true
  Change-present (quiet clients _ same _) j id a =
      ground (arith, clients id, inv.present j id, inv.present i id)
  Change-present (enters e _ got _ absent clients _) j id a =
      ground (arith, clients id, inv.present j id)
  Change-present (lists e own got _ _ same _) j id a =
      ground (arith, same, inv.present j id, inv.present i id)
  Change-present (delists e own got same _) j id a =
      ground (arith, same, inv.present j id, inv.present i id)
  Change-present (exits e own got _ clients _) j id a =
      ground (arith, clients id, inv.present j id, inv.exclusive i j id)

  Change-handles :
      Change view i w.shared t (w.pc i) q
      → (id : ClientId) (j : ℕ) → Maps.get t.connections id ≡ some j
      → (owner (next.pc j) ≡ some id) × (is_off (next.pc j) ≡ false)
  Change-handles (quiet clients kept same on) id j g =
      ground (arith, kept id j, inv.handles id j (kept id j g))
  Change-handles (enters e own got on absent clients same) id j g =
      ground (arith, same, inv.handles id j)
  Change-handles (lists e own got off on same listed) id j g =
      ground (arith, listed id, inv.handles id j)
  Change-handles (delists e own got same listed) id j g =
      ground (arith, listed id, inv.handles id j)
  Change-handles (exits e own got off clients same) id j g = ground (arith, same, inv.handles id j)

  Change-served :
      Change view i w.shared t (w.pc i) q
      → (id : ClientId) → is_there (view t.router id) ≡ true
      → (j : ℕ) × (owner (next.pc j) ≡ some id)
  Change-served (quiet clients kept same on) id h =
      let (k, mine) = inv.served id (sym (clients id) ∙ h) in (k, ground (arith, mine))
  Change-served (lists e own got off on same listed) id h =
      let (k, mine) = inv.served id (ground (arith, same)) in (k, ground (arith, mine))
  Change-served (delists e own got same listed) id h =
      let (k, mine) = inv.served id (ground (arith, same)) in (k, ground (arith, mine))
  Change-served (exits e own got off clients same) id h =
      let (k, mine) = inv.served id (ground (arith, clients id)) in
      (k, ground (arith, mine, clients id))
  Change-served (enters e own got on absent clients same) id h = elim (Bool-cases (e == id)) [
    | inl here ↦ (i, ground arith)
    | inr other ↦
        let (k, mine) = inv.served id (ground (arith, clients id)) in (k, ground (arith, mine))
  ]

  Change-Owned : Change view i w.shared t (w.pc i) q → Owned view next
  Change-Owned c = record {
    exclusive = Change-exclusive c;
    present = Change-present c;
    served = Change-served c;
    handles = Change-handles c;
  }

module _ {R H A S : Type 0} (m : MessageRouter R) (hook : EventHook H) (auth : AuthProvider A)
    (channels : Channels S ℕ) (from_str : List ℕ → Option WireEvent) (view : R → View)
    (law : Implements m view) where
  Step-Owned :
      {w x : World R H A S} → Step m hook auth channels from_str w x → Owned view w → Owned view x
  Step-Owned {w} (moves i {s} {p} mv) inv =
      Change-Owned view w i s p inv (Move-Change m hook auth channels from_str view law i mv)
  Step-Owned (loses_writer i spawned) inv = record {
    exclusive = inv.exclusive;
    present = inv.present;
    served = inv.served;
    handles = inv.handles;
  }
  Step-Owned (writes i event spawned taken) inv = record {
    exclusive = inv.exclusive;
    present = inv.present;
    served = inv.served;
    handles = inv.handles;
  }

  -- In every state that the connections of a relay reach, in any interleaving of their steps under
  -- the locks, each identity of the router belongs to exactly one task, which is past its connect
  -- and not past its disconnect, and a handle of the connection map is that of the task that its
  -- identity belongs to, before that task takes it off. The relay starts empty, and the router
  -- implements the specification.
  pub Reach-Owned :
      (start : ServerState R H A S ℕ) {w : World R H A S}
      → ((id : ClientId) → view start.router id ≡ none)
      → ((id : ClientId) → Maps.get start.connections id ≡ none)
      → Reach m hook auth channels from_str start w
      → Owned view w
  Reach-Owned start alone none_listed begins = record {
    exclusive = λ i j id a b. cc;
    present = λ i id a. cc;
    served = λ id h. absurd (ground (arith, alone id));
    handles = λ id i h. absurd (ground (arith, none_listed id));
  }
  Reach-Owned start alone none_listed (later r st) =
      Step-Owned st (Reach-Owned start alone none_listed r)
