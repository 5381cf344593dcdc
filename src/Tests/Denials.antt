-- ===== src/Tests/Denials.antt =====
-- A relay that denies bob: alice waits for the lock while he has not taken his rejection.
use e2e_chat_rs.Prelude.{
  ℕ, ◌≡◌, refl, true, false, [], ◌∷◌, ◌==◌, if◌then◌else◌, ok, err, ◌⊎◌, ℕ_discrete,
}
use mathlib.Core.WellFounded.{Acc}
use e2e_chat_rs.ChatCore.Types.{ClientId, ClientId_eq, ClientId-discrete}
use e2e_chat_rs.ChatCore.Service.{
  AuthProvider, NoopAuthProvider, NoopEventHook, noop_hook, connect_denied,
}
use e2e_chat_rs.ChatServer.Router.{InMemoryRouter, in_memory}
use e2e_chat_rs.ChatServer.Ws.{ServerState, new_state, new_server}
use e2e_chat_rs.ChatServer.Ws.Socket.{text_message, read_client_hello}
use e2e_chat_rs.ChatServer.Ws.System
use e2e_chat_rs.ChatServer.Ws.System.Authorizing.{holds_auth, Meanwhile}
use e2e_chat_rs.ChatServer.Ws.System.Resting.{at_rest, Later}
use e2e_chat_rs.ChatServer.Ws.System.Progress.{CanMove, WaitsForAuth, busy_tasks_rest}
use e2e_chat_rs.Tests.Interleaving.{full, decode}
use e2e_chat_rs.Tests.Core.{alice, bob}

abbrev no_bob : AuthProvider NoopAuthProvider
no_bob = record {
  authorize_connect = λ a id. ((if id == bob then err connect_denied else ok tt), a);
}

abbrev World : Type 0
World = System.World InMemoryRouter NoopEventHook NoopAuthProvider ℕ

abbrev start : ServerState InMemoryRouter NoopEventHook NoopAuthProvider ℕ ℕ
start = new_state new_server 0

-- Task 1 tells bob that he is denied, and task 0 waits to be authorized as alice.
abbrev denied_there :
    (w : World) × System.Reach in_memory noop_hook no_bob full decode start w
    × (w.pc 0 ≡ System.authorizing alice)
    × (holds_auth (w.pc 1) ≡ true)
unfolding read_client_hello ℕ_discrete ClientId-discrete
denied_there =
    let r1 =
      System.later System.begins
        (System.moves 1 (System.reads_hello (text_message [] ∷ []) bob refl)) in
    let r2 = System.later r1 (System.moves 1 (System.denies bob connect_denied refl refl)) in
    let r3 =
      System.later r2
        (System.moves 0 (System.reads_hello (text_message (1 ∷ []) ∷ []) alice refl)) in
    (_, r3, refl, refl)

busy_tasks_rest_example :
    ((p : System.Pc) → Acc (Later in_memory noop_hook no_bob full decode) p)
    × ((i : ℕ)
        → at_rest (denied_there.0.pc i) ≡ false
        → CanMove in_memory noop_hook no_bob full decode i denied_there.0.shared
            (denied_there.0.pc i)
          ⊎ WaitsForAuth in_memory noop_hook no_bob full decode i denied_there.0)
    × ((i j : ℕ) (id : ClientId) (x : World)
        → holds_auth (denied_there.0.pc j) ≡ true
        → denied_there.0.pc i ≡ System.authorizing id
        → Meanwhile in_memory noop_hook no_bob full decode j denied_there.0 x
        → x.pc i ≡ System.authorizing id)
busy_tasks_rest_example =
    busy_tasks_rest in_memory noop_hook no_bob full decode start refl denied_there.1
