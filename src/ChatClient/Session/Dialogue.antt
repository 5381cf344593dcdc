-- ===== src/ChatClient/Session/Dialogue.antt =====
-- Two clients of session.rs in turns, over a network that loses nothing: each event reaches the
-- peer, and the answer to it comes back, before the next event is sent.

pub mod Turns
pub mod Lines
pub mod Heard
use e2e_chat_rs.Prelude.{
  ℕ, ◌+◌, Bool, true, false, not, Option, none, some, List, [], ◌∷◌, ◌++◌, Result, ok, err,
  if◌then◌else◌, map,
}
use e2e_chat_rs.ChatCore.Event.{WireEvent}
use e2e_chat_rs.ChatCore.Crypto.Primitives.{Primitives}
use e2e_chat_rs.ChatClient.Session.{
  ClientSession, ClientSessionError, Draws, InboundEvent, chat_text, rekey_completed,
  InboundOutcome, handle_event, encrypt_line, start_rekey,
}

-- What a user does: a line, or `/rekey`. Each call of the turn has draws of its own.
pub record Turn : Type 0 where
  pub by_first : Bool
  pub line : Option (List ℕ)
  pub draws : ℕ → Draws

-- The two clients, from the side of the one whose turn it is.
pub record Pair : Type 0 where
  pub own : ClientSession
  pub peer : ClientSession

abbrev pub flipped : Bool → Pair → Pair
flipped true p = p
flipped false p = record { own = p.peer; peer = p.own }

-- The lines among what a client shows.
abbrev pub shown : Option InboundEvent → List (List ℕ)
shown (some (chat_text line)) = line ∷ []
shown _ = []

module _ (prim : Primitives) where
  abbrev back : Option WireEvent → Draws → ClientSession → Option ClientSession
  back none draws c = some c
  back (some reply) draws c =
      let heard = handle_event prim reply draws c in
      elim heard.0 [ err _ ↦ none | ok _ ↦ some heard.1 ]

  -- One event to the peer, and its answer. An error of either ends the conversation.
  unfoldable pub transmit : WireEvent → Draws → Draws → Pair → Option (List (List ℕ) × Pair)
  unfolding handle_event
  transmit event there here p =
      let heard = handle_event prim event there p.peer in
      elim heard.0 [
        | err _ ↦ none
        | ok outcome ↦ elim (back outcome.reply_event here p.own) [
          | none ↦ none
          | some own ↦ some (shown outcome.event, record { own = own; peer = heard.1 })
        ]
      ]

  unfoldable pub transmit_all :
      List WireEvent → ℕ → (ℕ → Draws) → Pair → Option (List (List ℕ) × Pair)
  unfolding transmit
  transmit_all [] n draws p = some ([], p)
  transmit_all (event ∷ events) n draws p = elim (transmit event (draws n) (draws (n + 1)) p) [
    | none ↦ none
    | some (first, q) ↦ elim (transmit_all events (n + 2) draws q) [
      | none ↦ none
      | some (rest, r) ↦ some (first ++ rest, r)
    ]
  ]

  -- The events that a turn sends.
  abbrev pub say :
      Option (List ℕ)
      → Draws
      → ClientSession
      → Result (List WireEvent) ClientSessionError × ClientSession
  say (some line) draws c = encrypt_line prim line draws c
  say none draws c =
      let asked = start_rekey prim draws c in
      (elim asked.0 [ ok event ↦ ok (event ∷ []) | err e ↦ err e ], asked.1)

  -- The lines that the peer shows in a turn, if nothing fails.
  unfoldable pub take_turn : Option (List ℕ) → (ℕ → Draws) → Pair → Option (List (List ℕ) × Pair)
  unfolding transmit_all encrypt_line start_rekey
  take_turn line draws p =
      let said = say line (draws 0) p.own in
      elim said.0 [
        | err _ ↦ none
        | ok events ↦ transmit_all events 1 draws (record { own = said.1; peer = p.peer })
      ]

  -- What is shown in a whole dialogue, each line with whose line it is. `p` is seen from the first.
  unfoldable pub talk : List Turn → Pair → Option (List (Bool × List ℕ) × Pair)
  unfolding take_turn
  talk [] p = some ([], p)
  talk (t ∷ ts) p = elim (take_turn t.line t.draws (flipped t.by_first p)) [
    | none ↦ none
    | some (lines, q) ↦ elim (talk ts (flipped t.by_first q)) [
      | none ↦ none
      | some (rest, r) ↦ some (map (λ line. (t.by_first, line)) lines ++ rest, r)
    ]
  ]

-- What is said in a dialogue.
unfoldable pub said : List Turn → List (Bool × List ℕ)
said [] = []
said (t ∷ ts) = elim t.line [ none ↦ said ts | some line ↦ (t.by_first, line) ∷ said ts ]
