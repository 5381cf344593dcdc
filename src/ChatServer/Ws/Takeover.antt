-- ===== src/ChatServer/Ws/Takeover.antt =====
-- A second connection under an identity that is connected, in ws.rs.
use e2e_chat_rs.ChatServer.Ws.{register_client, ClientId, List, WireEvent, ServerState}
use e2e_chat_rs.ChatServer.Router.Contract.{View, Implements}
use e2e_chat_rs.ChatCore.Service.{MessageRouter, EventHook, AuthProvider, AuthError}
use e2e_chat_rs.Prelude.{inl, inr, some, arith, Result-cases, ◌≡◌, ◌⊎◌}
use e2e_chat_rs.ChatServer.Ws.Socket.{ended, refused, rejection, open_connection}

module _ {R H A S Handle : Type 0} (m : MessageRouter R) (hook : EventHook H)
    (auth : AuthProvider A) (view : R → View) (law : Implements m view) where
  -- A connection that announces an identity which is connected is not served, whatever the
  -- authorization says: it ends, perhaps with the rejection, and the connection map, the hook, the
  -- channels and all outboxes are as they were, so that nobody takes over the identity of a
  -- client. The router implements the specification.
  pub takeover_refused :
      (id : ClientId) (h : Handle) (q : List WireEvent) (s : ServerState R H A S Handle)
      → view s.router id ≡ some q
      → let start = open_connection m hook auth (some id) h s in
        ((start.0 ≡ ended) ⊎ ((e : AuthError) × (start.0 ≡ refused (rejection e))))
        × (start.1.connections ≡ s.connections)
        × (start.1.hook ≡ s.hook)
        × (start.1.channels ≡ s.channels)
        × ((j : ClientId) → view start.1.router j ≡ view s.router j)
  unfolding open_connection register_client
  takeover_refused id h q s there = elim (Result-cases (auth.authorize_connect s.auth id).0) [
    | inr (e, denied) ↦
        (inr (e, ground arith), ground arith, ground arith, ground arith, λ j. ground arith)
    | inl (u, allowed) ↦
        let connects = law.connects s.router id in
        (
          inl (ground (arith, connects)),
          ground (arith, connects),
          ground (arith, connects),
          ground (arith, connects),
          λ j. ground (arith, connects.0, connects.1 j),
        )
  ]
