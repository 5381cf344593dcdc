-- ===== src/ChatClient/Main.antt =====
-- crates/chat-client/src/main.rs: the command line client, one event at a time.
pub mod Inbound
pub mod Fingerprint
pub mod Surviving
pub mod Meeting
use e2e_chat_rs.Prelude.{
  ℕ, ◌+◌, Bool, true, false, not, ◌&&◌, ◌||◌, Option, none, some, List, [], ◌∷◌, ◌++◌, ltb, leb,
  ◌==◌, ℕ_eq, bytes_eq, text, all, is_empty, if◌then◌else◌, Method, Result, ok, err, pure, raise,
  lift, gets, modify, ◌>>=◌, ◌>>◌,
}
use e2e_chat_rs.ChatCore.Types.{ClientId, TypeError, parse}
use e2e_chat_rs.ChatCore.Event.{WireEvent, client_hello, peer_key, encrypted_message, ack, error}
use e2e_chat_rs.ChatCore.Crypto.Primitives.{Bytes, Primitives}
use e2e_chat_rs.ChatCore.Crypto.Session.{is_some}
use e2e_chat_rs.ChatClient.Texts.{trim, to_lowercase}
use e2e_chat_rs.ChatClient.Session.{
  ClientSession, ClientSessionError, ClientMethod, Draws, InboundEvent, InboundOutcome, chat_text,
  rekey_completed, missing_peer_key, set_auto_rekey_after, expect_peer_fingerprint,
  peer_fingerprint, client_hello_event, peer_key_event, is_ready, new, start_rekey, encrypt_line,
  handle_event,
}

pub record Args : Type 0 where
  pub server : List ℕ
  pub id : List ℕ
  pub peer : List ℕ
  pub verify_fingerprint : Option (List ℕ)
  pub rekey_after : Option ℕ

-- What ends the program with an error.
pub data Failure : Type 0 where
  local_id_invalid peer_id_invalid : TypeError → Failure
  fingerprint_invalid connect_failed encode_failed send_failed : Failure
  stdin_failed read_failed decode_failed : Failure
  start_rekey_failed encrypt_failed : ClientSessionError → Failure

-- A line on the terminal: `chat_line` on the standard output, the others on standard error.
pub data Line : Type 0 where
  chat_line : List ℕ → Line
  rotated_to : (epoch : ℕ) → Line
  status_line : List ℕ → Line
  fingerprint_verified fingerprint_unverified : List ℕ → Line
  rekey_requires_session peer_key_not_received : Line
  rejected : ClientSessionError → Line

-- The writing half of the socket, and the JSON of what goes through it.
pub record Socket (W : Type 0) : Type 0 where
  pub connect : List ℕ → Option W
  pub to_string : WireEvent → Option (List ℕ)
  pub from_str : List ℕ → Option WireEvent
  pub send : W → List ℕ → Bool × W

pub data Message : Type 0 where
  text_message : List ℕ → Message
  binary ping pong frame close : Message

-- What `select!` wakes up for, with the values that may be drawn on the way. `next_line` and
-- `reader.next()` can fail, or be at their end.
pub data Input : Type 0 where
  ticks : Input
  reads_line : Result (Option (List ℕ)) (Unit {0}) → Draws → Input
  receives : Option (Result Message (Unit {0})) → Draws → Input

pub data Next : Type 0 where
  goes_on stops : Next

pub record Client (W : Type 0) : Type 0 where
  pub session : ClientSession
  pub pinned_fingerprint : Option (List ℕ)
  pub writer : W
  pub terminal : List Line

abbrev pub utf8_len : ℕ → ℕ
utf8_len c = if ltb c 0x80 then 1 else if ltb c 0x800 then 2 else if ltb c 0x10000 then 3 else 4

-- `str::len`
abbrev pub byte_len : List ℕ → ℕ
byte_len [] = 0
byte_len (c ∷ cs) = utf8_len c + byte_len cs

abbrev pub is_ascii_hexdigit : ℕ → Bool
is_ascii_hexdigit c =
    (leb b'0' c && leb c b'9') || (leb b'A' c && leb c b'F') || (leb b'a' c && leb c b'f')

unfoldable pub normalize_fingerprint : (lower : ℕ → List ℕ) → List ℕ → Result (List ℕ) Failure
normalize_fingerprint lower raw =
    let normalized = to_lowercase lower (trim raw) in
    if byte_len normalized == 64 && all is_ascii_hexdigit normalized
    then ok normalized
    else err fingerprint_invalid

abbrev pub should_retry_peer_key : Bool → Bool
should_retry_peer_key ready = not ready

unfoldable pub needs_peer_key_reply : Bool → WireEvent → Bool
needs_peer_key_reply was_ready (peer_key from to public_key) = not was_ready
needs_peer_key_reply was_ready _ = false

unfoldable pub control_status : WireEvent → Option (List ℕ)
control_status (ack message_id) = some (text "message delivered to relay")
control_status (error code message) = some (text "relay error: " ++ message)
control_status _ = none

-- `verify_fingerprint.map(normalize_fingerprint).transpose()?`
unfoldable pub normalize_option :
    (lower : ℕ → List ℕ) → Option (List ℕ) → Result (Option (List ℕ)) Failure
unfolding normalize_fingerprint
normalize_option lower none = ok none
normalize_option lower (some raw) = elim (normalize_fingerprint lower raw) [
  | ok pinned ↦ ok (some pinned)
  | err e ↦ err e
]

abbrev pub configure_rekey : Option ℕ → ClientSession → ClientSession
configure_rekey none s = s
configure_rekey (some threshold) s = set_auto_rekey_after threshold s

abbrev pub configure_pin : (lower : ℕ → List ℕ) → Option (List ℕ) → ClientSession → ClientSession
configure_pin lower none s = s
configure_pin lower (some expected) s = expect_peer_fingerprint lower expected s

module _ {W : Type 0} (io : Socket W) where
  abbrev pub Act : Type 0 → Type 0
  Act A = Method (Client W) Failure A

  abbrev pub print : Line → Act (Unit {0})
  print line = modify (λ c. record c { terminal = c.terminal ++ line ∷ [] })

  unfoldable pub send_event : WireEvent → Act (Unit {0})
  send_event event c = elim (io.to_string event) [
    | none ↦ (err encode_failed, c)
    | some payload ↦ (
      (if (io.send c.writer payload).0 then ok tt else err send_failed),
      record c { writer = (io.send c.writer payload).1 },
    )
  ]

  unfoldable pub send_all : List WireEvent → Act (Unit {0})
  send_all [] = pure tt
  send_all (event ∷ events) = do send_event event; send_all events

  -- A call of a session's method, whose error is handled by the caller.
  abbrev pub call : {A : Type 0} → ClientMethod A → Act (Result A ClientSessionError)
  call m c = (ok (m c.session).0, record c { session = (m c.session).1 })

  module _ (prim : Primitives) where
    unfoldable pub on_tick : Act Next
    on_tick = do
      session ← gets (λ c. c.session)
      if should_retry_peer_key (is_ready session)
          then send_event (peer_key_event session)
          else pure tt
      pure goes_on

    abbrev after_rekey : Result WireEvent ClientSessionError → Act Next
    after_rekey (ok event) = do send_event event; pure goes_on
    after_rekey (err e) = raise (start_rekey_failed e)

    abbrev after_encrypt : Result (List WireEvent) ClientSessionError → Act Next
    after_encrypt (ok events) = do send_all events; pure goes_on
    after_encrypt (err missing_peer_key) = do print peer_key_not_received; pure goes_on
    after_encrypt (err e) = raise (encrypt_failed e)

    unfoldable pub on_line : List ℕ → Draws → Act Next
    on_line line draws =
        if is_empty line
        then pure goes_on
        else if line == text "/rekey"
        then (do
          ready ← gets (λ c. is_ready c.session)
          if ready
              then (do event ← call (start_rekey prim draws); after_rekey event)
              else (do print rekey_requires_session; pure goes_on))
        else (do events ← call (encrypt_line prim line draws); after_encrypt events)
