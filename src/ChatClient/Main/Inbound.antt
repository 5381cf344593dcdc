-- ===== src/ChatClient/Main/Inbound.antt =====
-- The socket's side of the client's loop, the loop, and the way into it.
use e2e_chat_rs.Prelude.{
  if◌then◌else◌, ◌>>=◌, ◌>>◌, Bool, not, ◌&&◌, Option, none, some, List, [], ◌∷◌, Result, ok, err,
}
use e2e_chat_rs.ChatCore.Types.{parse}
use e2e_chat_rs.ChatCore.Event.{WireEvent}
use e2e_chat_rs.ChatCore.Crypto.Primitives.{Bytes, Primitives}
use e2e_chat_rs.ChatClient.Session.{
  ClientSessionError, Draws, InboundEvent, InboundOutcome, chat_text, rekey_completed,
  peer_fingerprint, client_hello_event, peer_key_event, is_ready, new, handle_event,
}
use e2e_chat_rs.ChatClient.Main.{
  Args, Failure, Socket, Client, Message, text_message, close, Input, ticks, reads_line, receives,
  Next, goes_on, stops, Line, chat_line, rotated_to, status_line, fingerprint_verified,
  fingerprint_unverified, rejected, local_id_invalid, peer_id_invalid, connect_failed, stdin_failed,
  read_failed, decode_failed, needs_peer_key_reply, control_status, normalize_option,
  configure_rekey, configure_pin, send_event, on_tick, on_line, Act, print, call, ℕ, pure, raise,
  gets,
}

module _ {W : Type 0} (io : Socket W) (prim : Primitives) where
  -- The line for the outcome of an event, or else for the event itself.
  abbrev pub show_outcome : Option InboundEvent → Option (List ℕ) → Act io (Unit {0})
  show_outcome (some (chat_text words)) status = print io (chat_line words)
  show_outcome (some (rekey_completed epoch)) status = print io (rotated_to epoch)
  show_outcome none (some status) = print io (status_line status)
  show_outcome none none = pure tt

  abbrev pub send_reply : Option WireEvent → Act io (Unit {0})
  send_reply none = pure tt
  send_reply (some event) = send_event io event

  abbrev pub fingerprint_line : Option (List ℕ) → List ℕ → Line
  fingerprint_line none shown = fingerprint_unverified shown
  fingerprint_line (some _) shown = fingerprint_verified shown

  -- The fingerprint is shown when the session has just become ready.
  abbrev pub show_fingerprint : Bool → Client W → Act io (Unit {0})
  show_fingerprint was_ready client =
      if not was_ready && is_ready client.session
      then elim (peer_fingerprint prim client.session) [
        | none ↦ pure tt
        | some shown ↦ print io (fingerprint_line client.pinned_fingerprint shown)
      ]
      else pure tt

  abbrev pub after_event : Bool → WireEvent → Result InboundOutcome ClientSessionError → Act io Next
  after_event was_ready event (err e) = do print io (rejected e); pure goes_on
  after_event was_ready event (ok outcome) = do
    show_outcome outcome.event (control_status event)
    send_reply outcome.reply_event
    client ← gets (λ c. c)
    show_fingerprint was_ready client
    if needs_peer_key_reply was_ready event
        then send_event io (peer_key_event client.session)
        else pure tt
    pure goes_on

  abbrev on_event : Option WireEvent → Draws → Act io Next
  on_event none draws = raise decode_failed
  on_event (some event) draws = do
    was_ready ← gets (λ c. is_ready c.session)
    outcome ← call io (handle_event prim event draws)
    after_event was_ready event outcome

  unfoldable pub on_message : Message → Draws → Act io Next
  on_message (text_message payload) draws = on_event (io.from_str payload) draws
  on_message close draws = pure stops
  on_message _ draws = pure goes_on

  -- One turn of `select!`.
  unfoldable pub turn : Input → Act io Next
  unfolding on_message
  turn ticks = on_tick io prim
  turn (reads_line (err _) draws) = raise stdin_failed
  turn (reads_line (ok none) draws) = pure stops
  turn (reads_line (ok (some line)) draws) = on_line io prim line draws
  turn (receives none draws) = pure stops
  turn (receives (some (err _)) draws) = raise read_failed
  turn (receives (some (ok message)) draws) = on_message message draws

  -- The loop, over the inputs as they come.
  unfoldable pub run_loop : List Input → Act io Next
  run_loop [] c = (ok goes_on, c)
  run_loop (input ∷ inputs) c = elim (turn input c).0 [
    | err e ↦ (err e, (turn input c).1)
    | ok stops ↦ (ok stops, (turn input c).1)
    | ok goes_on ↦ run_loop inputs (turn input c).1
  ]

  -- `run` up to its loop, at the secret key that is drawn.
  unfoldable pub open_client : (lower : ℕ → List ℕ) → Args → Bytes → Result (Client W) Failure
  open_client lower args secret = elim (parse args.id) [
    | err e ↦ err (local_id_invalid e)
    | ok local_id ↦ elim (parse args.peer) [
      | err e ↦ err (peer_id_invalid e)
      | ok peer_id ↦ elim (normalize_option lower args.verify_fingerprint) [
        | err e ↦ err e
        | ok pinned ↦ elim (io.connect args.server) [
          | none ↦ err connect_failed
          | some writer ↦ ok (record {
            session =
                configure_pin lower pinned
                  (configure_rekey args.rekey_after (new prim local_id peer_id secret));
            pinned_fingerprint = pinned;
            writer = writer;
            terminal = [];
          })
        ]
      ]
    ]
  ]

  unfoldable pub announce : Act io (Unit {0})
  announce = do
    session ← gets (λ c. c.session)
    send_event io (client_hello_event session)
    send_event io (peer_key_event session)

  unfoldable pub run : (lower : ℕ → List ℕ) → Args → Bytes → List Input → Result Next Failure
  unfolding open_client announce run_loop
  run lower args secret inputs = elim (open_client lower args secret) [
    | err e ↦ err e
    | ok client ↦ elim (announce client).0 [
      | err e ↦ err e
      | ok _ ↦ (run_loop inputs (announce client).1).0
    ]
  ]
