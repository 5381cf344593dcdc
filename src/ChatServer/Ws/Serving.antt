-- ===== src/ChatServer/Ws/Serving.antt =====
-- crates/chat-server/src/ws.rs: the server around its connections, and crates/chat-server/src/main.rs.
-- The web framework, the environment and the network are parameters.
use e2e_chat_rs.Prelude.{refl, ◌≡◌}
use e2e_chat_rs.ChatServer.Router
use e2e_chat_rs.ChatCore.Service.{noop_event_hook}
use e2e_chat_rs.Prelude.{ℕ, Option, none, some, List, Result, ok, err, text}
use e2e_chat_rs.ChatServer.Ws.{
  ServerState, WsServer, new_server, new_state, with_router, with_hook, max_event_bytes,
}

-- An upgrade to a WebSocket, with the limits for what a client sends; its socket is handled on the
-- shared state.
pub record Upgrade (State : Type 0) : Type 0 where
  pub max_message_size : ℕ
  pub max_frame_size : ℕ
  pub state : State

-- What axum serves at a path.
pub record App (State : Type 0) : Type 0 where
  pub path : List ℕ
  pub upgrade : Upgrade State

pub data ServeError : Type 0 where
  websocket_server_failed bind_failed : ServeError

abbrev pub ws_handler : {State : Type 0} → State → Upgrade State
ws_handler state = record {
  max_message_size = max_event_bytes;
  max_frame_size = max_event_bytes;
  state = state;
}

abbrev pub listen_address : Option (List ℕ) → List ℕ
listen_address (some addr) = addr
listen_address none = text "127.0.0.1:3000"

-- `axum::serve`, on the contents `channels` that the channels have at first; a handle is a number
module _ {S Listener : Type 0} (channels : S)
    (axum_serve : (State : Type 0) → Listener → App State → Result (Unit {0}) (Unit {0})) where
  unfoldable pub run : {R H A : Type 0} → Listener → WsServer R H A → Result (Unit {0}) ServeError
  run {R} {H} {A} listener s =
      let state : ServerState R H A S ℕ = new_state s channels in
      let app : App (ServerState R H A S ℕ) = record {
        path = text "/ws";
        upgrade = ws_handler state;
      } in
      elim (axum_serve (ServerState R H A S ℕ) listener app) [
        | ok _ ↦ ok tt
        | err _ ↦ err websocket_server_failed
      ]

  abbrev pub serve : Listener → Result (Unit {0}) ServeError
  serve listener = run listener new_server

  abbrev pub serve_with_router : {R : Type 0} → Listener → R → Result (Unit {0}) ServeError
  serve_with_router listener router = run listener (with_router new_server router)

  abbrev pub serve_with_router_and_hook :
      {R H : Type 0} → Listener → R → H → Result (Unit {0}) ServeError
  serve_with_router_and_hook listener router hook =
      run listener (with_hook (with_router new_server router) hook)

  -- `main` of the relay, with the variable CHAT_SERVER_ADDR, where it is set
  unfoldable pub main :
      (variable : Option (List ℕ))
      → (bind : List ℕ → Option Listener) → Result (Unit {0}) ServeError
  unfolding run
  main variable bind = elim (bind (listen_address variable)) [
    | none ↦ err bind_failed
    | some listener ↦ serve listener
  ]

  -- The entry points differ in what they are given only.
  entry_points_agree :
      (listener : Listener)
      → (serve_with_router listener Router.default ≡ serve listener)
        × (serve_with_router_and_hook listener Router.default noop_event_hook ≡ serve listener)
  entry_points_agree listener = (refl, refl)
