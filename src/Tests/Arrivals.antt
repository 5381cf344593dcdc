-- ===== src/Tests/Arrivals.antt =====
-- A connection that comes to its loop on a relay with the in-memory router, no hook and no
-- authorization.
use e2e_chat_rs.ChatServer.Ws.Socket.{Incoming, read_client_hello}
use e2e_chat_rs.ChatCore.Types.{ClientId, ClientId_eq}
use e2e_chat_rs.ChatCore.Service.{NoopEventHook, NoopAuthProvider, noop_hook, noop_auth}
use e2e_chat_rs.ChatServer.Router.{InMemoryRouter, in_memory, connect}
use e2e_chat_rs.ChatCore.Event.{WireEvent}
use e2e_chat_rs.ChatServer.Ws.{Channels, ServerState}
use e2e_chat_rs.Prelude.{ℕ, ◌≡◌, refl, false, ok, Option, some, List, arith}
use e2e_chat_rs.Prelude.Maps
use e2e_chat_rs.ChatServer.Ws.System
use e2e_chat_rs.ChatServer.Ws.System.Race.{step_at}

module _ {S : Type 0} (channels : Channels S ℕ) (decode : List ℕ → Option WireEvent)
    (start : ServerState InMemoryRouter NoopEventHook NoopAuthProvider S ℕ) where
  abbrev pub Mixed : System.World InMemoryRouter NoopEventHook NoopAuthProvider S → Type 0
  Mixed w = System.Reach in_memory noop_hook noop_auth channels decode start w

  -- Task `i` has connected as `id`, and then it has come to its loop.
  abbrev pub connected :
      ℕ
      → ClientId
      → System.World InMemoryRouter NoopEventHook NoopAuthProvider S
      → System.World InMemoryRouter NoopEventHook NoopAuthProvider S
  connected i id w = record {
    shared = record (w.shared) { router = (connect w.shared.router id).1 };
    pc =
        System.update
          (System.update (System.update w.pc i (System.authorizing id)) i (System.connecting id)) i
          (System.inserting id);
  }

  abbrev pub settled :
      ℕ
      → ClientId
      → System.World InMemoryRouter NoopEventHook NoopAuthProvider S
      → System.World InMemoryRouter NoopEventHook NoopAuthProvider S
  settled i id w = record {
    shared = record (w.shared) { connections = Maps.insert w.shared.connections id i };
    pc = System.update (System.update w.pc i (System.announcing id)) i (System.looping id);
  }

  pub connects_there :
      (w : System.World InMemoryRouter NoopEventHook NoopAuthProvider S) (i : ℕ) (id : ClientId)
      (ms : List Incoming)
      → w.pc i ≡ System.reading
      → w.shared.auth_locked ≡ false
      → (read_client_hello decode ms).0 ≡ some id
      → (connect w.shared.router id).0 ≡ ok tt
      → Mixed w
      → Mixed (connected i id w)
  connects_there w i id ms waits free said placed r =
      let r1 =
        step_at in_memory noop_hook noop_auth channels decode start w i System.reading
          (System.authorizing id) w.shared waits (System.reads_hello ms id said) r in
      let r2 =
        step_at in_memory noop_hook noop_auth channels decode start _ i (System.authorizing id)
          (System.connecting id) _ (ground arith) (System.authorizes id free refl) r1 in
      step_at in_memory noop_hook noop_auth channels decode start _ i (System.connecting id)
        (System.inserting id) _ (ground arith) (System.connects id placed) r2

  pub settles_there :
      (w : System.World InMemoryRouter NoopEventHook NoopAuthProvider S) (i : ℕ) (id : ClientId)
      → w.pc i ≡ System.inserting id
      → Mixed w
      → Mixed (settled i id w)
  settles_there w i id there r =
      let r1 =
        step_at in_memory noop_hook noop_auth channels decode start w i (System.inserting id)
          (System.announcing id) _ there (System.inserts id) r in
      step_at in_memory noop_hook noop_auth channels decode start _ i (System.announcing id)
        (System.looping id) _ (ground arith) (System.announces id) r1
