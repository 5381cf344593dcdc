-- ===== src/ChatServer/Ws/System/Authorizing.antt =====
-- The lock of `auth` in ws.rs, which `handle_socket` holds while it sends a rejection.
use e2e_chat_rs.Prelude.{
  ℕ, ◌≡◌, refl, Bool, true, false, Option, List, inl, inr, arith, ◌==◌, ℕ_eq, Bool-cases,
}
use e2e_chat_rs.ChatCore.Types.{ClientId}
use e2e_chat_rs.ChatCore.Event.{WireEvent}
use e2e_chat_rs.ChatCore.Service.{MessageRouter, EventHook, AuthProvider}
use e2e_chat_rs.ChatServer.Ws.{Channels, ServerState}
use e2e_chat_rs.ChatServer.Ws.System.{
  Pc, refusing, authorizing, World, update, Move, denies, authorizes, refuses, rejects, Step, moves,
  loses_writer, writes, Reach, begins, later,
}

-- The task sends a rejection, under the lock.
abbrev pub holds_auth : Pc → Bool
holds_auth (refusing id reason) = true
holds_auth _ = false

-- The lock is held by one task, or is free.
pub record AuthLock {R H A S : Type 0} (w : World R H A S) : Type 0 where
  pub locked : (i : ℕ) → holds_auth (w.pc i) ≡ true → w.shared.auth_locked ≡ true
  pub alone : (i j : ℕ) → holds_auth (w.pc i) ≡ true → holds_auth (w.pc j) ≡ true → i ≡ j
  pub holder : w.shared.auth_locked ≡ true → (i : ℕ) × (holds_auth (w.pc i) ≡ true)

-- What a move does to the lock.
data LockChange {R H A S : Type 0} (s t : ServerState R H A S ℕ) (p q : Pc) : Type 0 where
  takes : s.auth_locked ≡ false → t.auth_locked ≡ true → holds_auth q ≡ true → LockChange s t p q
  frees : holds_auth p ≡ true → t.auth_locked ≡ false → holds_auth q ≡ false → LockChange s t p q
  leaves_it :
      holds_auth p ≡ false
      → t.auth_locked ≡ s.auth_locked
      → holds_auth q ≡ false
      → LockChange s t p q

module _ {R H A S : Type 0} (m : MessageRouter R) (hook : EventHook H) (auth : AuthProvider A)
    (channels : Channels S ℕ) (from_str : List ℕ → Option WireEvent) where
  Move-LockChange :
      (i : ℕ) {s t : ServerState R H A S ℕ} {p q : Pc}
      → Move m hook auth channels from_str i s p t q
      → LockChange s t p q
  Move-LockChange i (denies id e free denied) = takes free refl refl
  Move-LockChange i (refuses id e) = frees refl refl refl
  Move-LockChange i (rejects id event e) = leaves_it refl refl (ground arith)
  Move-LockChange i _ = leaves_it refl refl refl

  moved-AuthLock :
      (w : World R H A S) (i : ℕ) (t : ServerState R H A S ℕ) (q : Pc)
      → LockChange w.shared t (w.pc i) q
      → AuthLock w
      → AuthLock (record { shared = t; pc = update w.pc i q })
  moved-AuthLock w i t q (takes free held got) inv = record {
    locked = λ j h. held;
    alone = λ j k a b. ground (arith, inv.locked j, inv.locked k);
    holder = λ h. (i, ground arith);
  }
  moved-AuthLock w i t q (frees had free gone) inv = record {
    locked = λ j h. ground (arith, inv.alone i j);
    alone = λ j k a b. ground (arith, inv.alone j k);
    holder = λ h. absurd (ground arith);
  }
  moved-AuthLock w i t q (leaves_it had same has) inv = record {
    locked = λ j h. ground (arith, inv.locked j);
    alone = λ j k a b. ground (arith, inv.alone j k);
    holder = λ h. let (j, held) = inv.holder (ground arith) in (j, ground arith);
  }

  pub Reach-AuthLock :
      (start : ServerState R H A S ℕ) {w : World R H A S}
      → start.auth_locked ≡ false
      → Reach m hook auth channels from_str start w
      → AuthLock w
  Reach-AuthLock start free begins = record {
    locked = λ i h. absurd cc;
    alone = λ i j a b. absurd cc;
    holder = λ h. absurd cc;
  }
  Reach-AuthLock start free (later {w} r (moves i {s} {p} mv)) =
      moved-AuthLock w i s p (Move-LockChange i mv) (Reach-AuthLock start free r)
  Reach-AuthLock start free (later r (writes i event spawned taken)) =
      let inv = Reach-AuthLock start free r in
      record { locked = inv.locked; alone = inv.alone; holder = inv.holder }
  Reach-AuthLock start free (later r (loses_writer i spawned)) =
      let inv = Reach-AuthLock start free r in
      record { locked = inv.locked; alone = inv.alone; holder = inv.holder }

  -- Any steps during which task `j` still sends its rejection.
  pub data Meanwhile (j : ℕ) (w : World R H A S) : World R H A S → Type 0 where
    still : Meanwhile j w w
    goes_by :
        {x y : World R H A S}
        → Meanwhile j w x
        → Step m hook auth channels from_str x y
        → holds_auth (y.pc j) ≡ true
        → Meanwhile j w y

  Meanwhile-Reach :
      (start : ServerState R H A S ℕ) (j : ℕ) {w x : World R H A S}
      → Reach m hook auth channels from_str start w
      → Meanwhile j w x
      → Reach m hook auth channels from_str start x
  Meanwhile-Reach start j r still = r
  Meanwhile-Reach start j r (goes_by on st held) = later (Meanwhile-Reach start j r on) st

  Meanwhile-holds :
      (j : ℕ) {w x : World R H A S}
      → holds_auth (w.pc j) ≡ true
      → Meanwhile j w x
      → holds_auth (x.pc j) ≡ true
  Meanwhile-holds j h still = h
  Meanwhile-holds j h (goes_by on st held) = held

  -- Nothing moves a task past a lock that is held.
  blocked :
      (i : ℕ) (id : ClientId) {s t : ServerState R H A S ℕ} {p q : Pc}
      → p ≡ authorizing id
      → s.auth_locked ≡ true
      → Move m hook auth channels from_str i s p t q
      → ⊥
  blocked i id at held (authorizes j free allowed) = cc
  blocked i id at held (denies j e free denied) = cc
  blocked i id at held _ = cc

  -- While a task still sends its rejection, a task that waits to be authorized goes on waiting.
  pub denied_client_blocks :
      (start : ServerState R H A S ℕ) {w : World R H A S} (i j : ℕ) (id : ClientId)
      {x : World R H A S}
      → start.auth_locked ≡ false
      → Reach m hook auth channels from_str start w
      → holds_auth (w.pc j) ≡ true
      → w.pc i ≡ authorizing id
      → Meanwhile j w x
      → x.pc i ≡ authorizing id
  denied_client_blocks start i j id free r holds waits still = waits
  denied_client_blocks start i j id free r holds waits (goes_by {x} on (moves k mv) held) =
      let before = denied_client_blocks start i j id free r holds waits on in
      let lock = Reach-AuthLock start free (Meanwhile-Reach start j r on) in
      let kept = lock.locked j (Meanwhile-holds j holds on) in
      elim (Bool-cases (k == i)) [
        | inl same ↦ absurd (blocked k id (ground arith) kept mv)
        | inr other ↦ ground arith
      ]
  denied_client_blocks start i j id free r holds waits (goes_by on (writes k e sp tk) held) =
      denied_client_blocks start i j id free r holds waits on
  denied_client_blocks start i j id free r holds waits (goes_by on (loses_writer k sp) held) =
      denied_client_blocks start i j id free r holds waits on
