-- ===== src/ChatServer/Ws/System/Race.antt =====
-- A client of ws.rs that comes back while its old connection is being dropped, or is about to report
-- its end.
use e2e_chat_rs.Prelude.{ℕ, ◌≡◌, ◌≢◌, refl, sym, true, Option, none, List, arith, ℕ_eq, subst}
use e2e_chat_rs.Prelude.Maps
use e2e_chat_rs.ChatCore.Types.{ClientId, ClientId_eq}
use e2e_chat_rs.ChatCore.Event.{WireEvent}
use e2e_chat_rs.ChatCore.Service.{MessageRouter, EventHook, AuthProvider}
use e2e_chat_rs.ChatServer.Router.Contract.{View, Implements}
use e2e_chat_rs.ChatServer.Ws.{Channels, ServerState, OutboxDelivery, some}
use e2e_chat_rs.ChatServer.Ws.Tracking.{is_there}
use e2e_chat_rs.ChatServer.Ws.System.{
  Pc, inserting, announcing, looping, dropping, delivering, Move, inserts, announces, drops, World,
  update, moves, Reach, later, departing, connecting, ended, connects, departs,
}
use e2e_chat_rs.ChatServer.Ws.System.Ownership.{Reach-Owned}

module _ {R H A S : Type 0} (m : MessageRouter R) (hook : EventHook H) (auth : AuthProvider A)
    (channels : Channels S ℕ) (from_str : List ℕ → Option WireEvent) where
  -- A move of a task whose place is known by an equation.
  pub step_at :
      (start : ServerState R H A S ℕ) (w : World R H A S) (i : ℕ) (p q : Pc)
      (t : ServerState R H A S ℕ)
      → w.pc i ≡ p
      → Move m hook auth channels from_str i w.shared p t q
      → Reach m hook auth channels from_str start w
      → Reach m hook auth channels from_str start (record { shared = t; pc = update w.pc i q })
  step_at start w i p q t here mv r =
      later r
        (moves i (subst (λ o. Move m hook auth channels from_str i w.shared o t q) (sym here) mv))

  -- When a task drops the connection of a slow client while a new connection of the same identity
  -- is between its connect and its entry in the connection map, there are further steps after
  -- which the new connection serves its client, who is connected in the router and has no handle
  -- in the map, and nobody was told to close since. The state is reached from an empty relay,
  -- whose router implements the specification.
  pub reconnect_lost :
      (view : R → View) (law : Implements m view)
      → (start : ServerState R H A S ℕ) → ((id : ClientId) → view start.router id ≡ none)
      → ((id : ClientId) → Maps.get start.connections id ≡ none)
      → (w : World R H A S) (i j : ℕ) (id sender : ClientId) (ds : List (OutboxDelivery ℕ))
      → Reach m hook auth channels from_str start w
      → w.pc i ≡ inserting id
      → w.pc j ≡ dropping sender id ds
      → (x : World R H A S) × Reach m hook auth channels from_str start x
        × (x.pc i ≡ looping id)
        × (is_there (view x.shared.router id) ≡ true)
        × (Maps.get x.shared.connections id ≡ none)
        × (x.shared.channels ≡ w.shared.channels)
  reconnect_lost view law start alone none_listed w i j id sender ds r at_i at_j =
      let s1 : ServerState R H A S ℕ = record (w.shared) {
        connections = Maps.insert w.shared.connections id i;
      } in
      let w1 : World R H A S = record { shared = s1; pc = update w.pc i (announcing id) } in
      let r1 = step_at start w i (inserting id) (announcing id) s1 at_i (inserts id) r in
      let s2 : ServerState R H A S ℕ = record s1 { hook = hook.on_connect s1.hook id } in
      let w2 : World R H A S = record { shared = s2; pc = update w1.pc i (looping id) } in
      let r2 =
        step_at start w1 i (announcing id) (looping id) s2 (ground arith) (announces id) r1 in
      let s3 : ServerState R H A S ℕ = record s2 { connections = Maps.remove s2.connections id } in
      let w3 : World R H A S = record { shared = s3; pc = update w2.pc j (delivering sender ds) } in
      let apart : i ≢ j = λ e. ground arith in
      let r3 =
        step_at start w2 j (dropping sender id ds) (delivering sender ds) s3 (ground (arith, apart))
          (drops sender id ds) r2 in
      let owned = Reach-Owned m hook auth channels from_str view law start alone none_listed r in
      (
        w3,
        r3,
        ground (arith, apart),
        owned.present i id (ground arith),
        ground (arith, Maps.get-remove s2.connections id id),
        refl,
      )

  -- When the end of a connection has been taken by the router and is about to be told to the hook,
  -- and a new connection of the same identity is about to connect, there are further steps after
  -- which the new connection serves its client, who is connected in the router and in the
  -- connection map, and the last that the hook was told of that identity is that it disconnected.
  -- The state is any that is reached in which the identity is free, and the router implements the
  -- specification.
  pub departure_told_last :
      (view : R → View) (law : Implements m view)
      → (start : ServerState R H A S ℕ) (w : World R H A S) (i j : ℕ) (id : ClientId)
      → Reach m hook auth channels from_str start w
      → w.pc i ≡ departing id
      → w.pc j ≡ connecting id
      → view w.shared.router id ≡ none
      → (x : World R H A S) × Reach m hook auth channels from_str start x
        × (x.pc i ≡ ended)
        × (x.pc j ≡ looping id)
        × (is_there (view x.shared.router id) ≡ true)
        × (Maps.get x.shared.connections id ≡ some j)
        × (x.shared.hook ≡ hook.on_disconnect (hook.on_connect w.shared.hook id) id)
  departure_told_last view law start w i j id r at_i at_j free =
      let apart : i ≢ j = λ e. ground arith in
      let placed = law.connects w.shared.router id in
      let s1 : ServerState R H A S ℕ = record (w.shared) {
        router = (m.connect w.shared.router id).1;
      } in
      let w1 : World R H A S = record { shared = s1; pc = update w.pc j (inserting id) } in
      let r1 =
        step_at start w j (connecting id) (inserting id) s1 at_j
          (connects id (ground (arith, placed, free))) r in
      let s2 : ServerState R H A S ℕ = record s1 {
        connections = Maps.insert s1.connections id j;
      } in
      let w2 : World R H A S = record { shared = s2; pc = update w1.pc j (announcing id) } in
      let r2 =
        step_at start w1 j (inserting id) (announcing id) s2 (ground arith) (inserts id) r1 in
      let s3 : ServerState R H A S ℕ = record s2 { hook = hook.on_connect s2.hook id } in
      let w3 : World R H A S = record { shared = s3; pc = update w2.pc j (looping id) } in
      let r3 =
        step_at start w2 j (announcing id) (looping id) s3 (ground arith) (announces id) r2 in
      let s4 : ServerState R H A S ℕ = record s3 { hook = hook.on_disconnect s3.hook id } in
      let w4 : World R H A S = record { shared = s4; pc = update w3.pc i ended } in
      let r4 = step_at start w3 i (departing id) ended s4 (ground (arith, apart)) (departs id) r3 in
      (
        w4,
        r4,
        ground arith,
        ground (arith, apart),
        ground (arith, placed.1 id, free),
        ground (arith, Maps.get-insert w.shared.connections id id j),
        refl,
      )
