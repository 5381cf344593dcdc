-- ===== src/ChatServer/Ws/Presence/Whole.antt =====
-- A connection of ws.rs that no other interrupts, from its hello to its end: who is connected then.
use e2e_chat_rs.Prelude.{
  ℕ, ◌≡◌, refl, Bool, true, false, not, ◌&&◌, ◌==◌, Option, none, some, List, arith, all,
  if◌then◌else◌, Result-cases, inl, inr, ◌⊎◌,
}
use e2e_chat_rs.Prelude.Maps
use e2e_chat_rs.Prelude.Maps.{HashMap}
use e2e_chat_rs.ChatCore.Types.{ClientId, ClientId_eq}
use e2e_chat_rs.ChatCore.Event.{WireEvent}
use e2e_chat_rs.ChatCore.Service.{MessageRouter, EventHook, AuthProvider}
use e2e_chat_rs.ChatServer.Router.Contract.{View, Implements}
use e2e_chat_rs.ChatServer.Ws.{Channels, ServerState, register_client, ok, err}
use e2e_chat_rs.ChatServer.Ws.Socket.{
  Incoming, Wake, Opening, ended, refused, serving, read_client_hello, open_connection, run_turns,
  handle_socket,
}
use e2e_chat_rs.ChatServer.Ws.Tracking.{is_there}
use e2e_chat_rs.ChatServer.Ws.Presence.{keeps_open, run_turns-Leaves}

-- The connection is served, and it is served as `j`.
abbrev pub is_served : Opening → Bool
is_served (serving id) = true
is_served _ = false

abbrev pub is_served_as : Opening → ClientId → Bool
is_served_as (serving id) j = id == j
is_served_as _ j = false

-- A connection is let in as `j` if it announces that identity, the identity is authorized, and
-- nobody is connected as it.
abbrev pub is_let_in : {R A : Type 0} → AuthProvider A → (R → View) → ClientId → A → R → Bool
is_let_in auth view id a r = elim (auth.authorize_connect a id).0 [
  | ok _ ↦ not (is_there (view r id))
  | err _ ↦ false
]

abbrev pub is_let_in_as :
    {R A : Type 0} → AuthProvider A → (R → View) → Option ClientId → A → R → ClientId → Bool
is_let_in_as auth view none a r j = false
is_let_in_as auth view (some id) a r j = (id == j) && is_let_in auth view id a r

abbrev pub is_any_let_in :
    {R A : Type 0} → AuthProvider A → (R → View) → Option ClientId → A → R → Bool
is_any_let_in auth view none a r = false
is_any_let_in auth view (some id) a r = is_let_in auth view id a r

module _ {R H A S Handle : Type 0} (m : MessageRouter R) (hook : EventHook H)
    (auth : AuthProvider A) (channels : Channels S Handle) (from_str : List ℕ → Option WireEvent)
    (view : R → View) (law : Implements m view) where
  open_connection-Opens :
      (announced : Option ClientId) (handle : Handle) (s : ServerState R H A S Handle)
      (j : ClientId)
      → let opening = open_connection m hook auth announced handle s in
        is_there (view (opening.1).router j)
        ≡ (if is_served_as opening.0 j then true else is_there (view s.router j))
  unfolding open_connection register_client
  open_connection-Opens none handle s j = refl
  open_connection-Opens (some id) handle s j =
      elim (Result-cases (auth.authorize_connect s.auth id).0) [
        | inr (x, e) ↦ ground arith
        | inl (u, e) ↦ elim (Result-cases (m.connect s.router id).0) [
          | inr (x, taken) ↦
              ground (arith, law.connects s.router id, (law.connects s.router id).1 j)
          | inl (v, placed) ↦
              ground (arith, law.connects s.router id, (law.connects s.router id).1 j)
        ]
      ]

  open_connection-served :
      (announced : Option ClientId) (handle : Handle) (s : ServerState R H A S Handle)
      → let opening = open_connection m hook auth announced handle s in
        (is_served opening.0 ≡ is_any_let_in auth view announced s.auth s.router)
        × ((j : ClientId)
            → is_served_as opening.0 j ≡ is_let_in_as auth view announced s.auth s.router j)
  unfolding open_connection register_client
  open_connection-served none handle s = (refl, λ j. refl)
  open_connection-served (some id) handle s =
      elim (Result-cases (auth.authorize_connect s.auth id).0) [
        | inr (x, e) ↦ (ground arith, λ j. ground arith)
        | inl (u, e) ↦ elim (Result-cases (m.connect s.router id).0) [
          | inr (x, taken) ↦ (
            ground (arith, law.connects s.router id),
            λ j. ground (arith, law.connects s.router id),
          )
          | inl (v, placed) ↦ (
            ground (arith, law.connects s.router id),
            λ j. ground (arith, law.connects s.router id),
          )
        ]
      ]

  Opening-cases :
      (o : Opening)
      → ((id : ClientId) × (o ≡ serving id))
        ⊎ ((is_served o ≡ false) × ((j : ClientId) → is_served_as o j ≡ false))
  Opening-cases ended = inr (refl, λ j. refl)
  Opening-cases (refused answer) = inr (refl, λ j. refl)
  Opening-cases (serving id) = inl (id, refl)

  unserved :
      (messages : List Incoming) (wakes : List Wake) (handle : Handle)
      (s : ServerState R H A S Handle)
      → let opening =
          open_connection m hook auth (read_client_hello from_str messages).0 handle s in
        is_served opening.0 ≡ false
        → handle_socket m hook auth channels from_str messages wakes handle s ≡ (false, opening.1)
  unfolding handle_socket
  unserved messages wakes handle s no_client = ground arith

  served_as :
      (messages : List Incoming) (wakes : List Wake) (handle : Handle)
      (s : ServerState R H A S Handle) (id : ClientId)
      → let opening =
          open_connection m hook auth (read_client_hello from_str messages).0 handle s in
        opening.0 ≡ serving id
        → handle_socket m hook auth channels from_str messages wakes handle s
          ≡ run_turns m hook channels from_str id handle wakes opening.1
  unfolding handle_socket
  served_as messages wakes handle s id served = ground arith

  -- For a whole connection that no other interrupts, from the hello over all turns of its loop: it
  -- is served still exactly if it announces an identity that is authorized and that nobody is
  -- connected as, and everything that wakes its loop is a text or another message, whatever the
  -- texts say. Its identity is then connected in the router, and once the connection has ended it
  -- is neither there nor in the connection map; every other client is connected exactly if it was
  -- before. The router implements the specification.
  pub handle_socket_presence :
      (messages : List Incoming) (wakes : List Wake) (handle : Handle)
      (s : ServerState R H A S Handle)
      → let announced = (read_client_hello from_str messages).0 in
        let done = handle_socket m hook auth channels from_str messages wakes handle s in
        (done.0 ≡ (is_any_let_in auth view announced s.auth s.router && all keeps_open wakes))
        × ((j : ClientId)
            → is_there (view (done.1).router j) ≡ (
                if is_let_in_as auth view announced s.auth s.router j
                then all keeps_open wakes
                else is_there (view s.router j)))
        × ((j : ClientId)
            → (is_let_in_as auth view announced s.auth s.router j
                && not done.0
                && is_there (Maps.get (done.1).connections j))
              ≡ false)
  handle_socket_presence messages wakes handle s =
      let announced = (read_client_hello from_str messages).0 in
      let opening = open_connection m hook auth announced handle s in
      let opens = open_connection-Opens announced handle s in
      let (any, which) = open_connection-served announced handle s in
      elim (Opening-cases opening.0) [
        | inr (no_client, nobody) ↦
            let whole = unserved messages wakes handle s no_client in
            (
              ground (arith, whole, any),
              λ j. ground (arith, whole, opens j, nobody j, which j),
              λ j. ground (arith, nobody j, which j),
            )
        | inl (id, served) ↦
            let whole = served_as messages wakes handle s id served in
            let (goes, left) =
              run_turns-Leaves m hook auth channels from_str view law id handle wakes opening.1
                (ground (arith, opens id)) in
            (
              ground (arith, whole, goes, any),
              λ j. ground (arith, whole, opens j, left.mine, left.others j, which j),
              λ j. ground (arith, whole, goes, left.listed, which j),
            )
      ]
