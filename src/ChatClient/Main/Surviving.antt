-- ===== src/ChatClient/Main/Surviving.antt =====
-- What the loop of main.rs does with what comes from the socket, while the socket still takes what
-- is sent.
use e2e_chat_rs.ChatCore.Crypto.Cipher.{decrypt}
use e2e_chat_rs.ChatCore.Crypto.Overflow.{decrypt_checked, decrypt_checked_below}
use e2e_chat_rs.ChatCore.Crypto.Session.{CryptoSession}
use e2e_chat_rs.Prelude.{
  true, false, if◌then◌else◌, none, some, [], ◌∷◌, ok, err, arith, refl, inl, inr, Option-cases,
  ◌≡◌, All, ◌>>◌, ◌&&◌, ◌+◌, subst, ◌<◌, sym, ◌^◌,
}
use e2e_chat_rs.ChatClient.Main.{
  Socket, Client, Input, ticks, reads_line, receives, Message, text_message, close, binary, ping,
  pong, frame, goes_on, send_event, on_tick, WireEvent, Primitives, List, ℕ, peer_key_event, true,
  Draws, handle_event, Method, Bool, Option, InboundEvent, Result, chat_text, InboundOutcome,
  rekey_completed, ClientSessionError, control_status, needs_peer_key_reply, not, is_ready,
  peer_fingerprint, encrypted_message,
}
use e2e_chat_rs.ChatClient.Main.Inbound.{
  show_outcome, send_reply, show_fingerprint, after_event, on_message, turn, run_loop,
}

-- Every event has a JSON, and everything is sent.
pub record IsOpen {W : Type 0} (io : Socket W) : Type 0 where
  pub encodes : (event : WireEvent) → (payload : List ℕ) × (io.to_string event ≡ some payload)
  pub sends : (w : W) (payload : List ℕ) → (io.send w payload).0 ≡ true

-- The epoch of an envelope is below the largest `u32`.
abbrev pub IsBelow : WireEvent → Type 0
IsBelow (encrypted_message envelope) = envelope.epoch + 1 < 2 ^ 32
IsBelow _ = Unit

-- A tick, or a message that is no text, or a text that is an event, of an epoch that
-- can be counted up; but no closing message.
unfoldable pub IsHarmless : {W : Type 0} → Socket W → Input → Type 0
IsHarmless io ticks = Unit
IsHarmless io (reads_line read draws) = ⊥
IsHarmless io (receives none draws) = ⊥
IsHarmless io (receives (some (err e)) draws) = ⊥
IsHarmless io (receives (some (ok (text_message payload))) draws) =
    (event : WireEvent) × (io.from_str payload ≡ some event) × IsBelow event
IsHarmless io (receives (some (ok close)) draws) = ⊥
IsHarmless io (receives (some (ok message)) draws) = Unit

-- The decryption that an event asks for does not panic in a build with overflow checks.
abbrev pub Decrypts : Primitives → WireEvent → Option CryptoSession → Type 0
Decrypts prim (encrypted_message envelope) (some s) =
    decrypt_checked prim envelope s ≡ some (decrypt prim envelope s)
Decrypts prim _ _ = Unit

abbrev pub DecryptsText : Primitives → Option WireEvent → Option CryptoSession → Type 0
DecryptsText prim none session = Unit
DecryptsText prim (some event) session = Decrypts prim event session

abbrev pub DecryptsInput :
    {W : Type 0} → Socket W → Primitives → Input → Option CryptoSession → Type 0
DecryptsInput io prim (receives (some (ok (text_message payload))) draws) session =
    DecryptsText prim (io.from_str payload) session
DecryptsInput io prim _ session = Unit

-- None does, in any turn of the loop.
unfoldable pub NeverPanics : {W : Type 0} → Socket W → Primitives → List Input → Client W → Type 0
NeverPanics io prim [] c = Unit
NeverPanics io prim (input ∷ inputs) c =
    DecryptsInput io prim input c.session.crypto_session
    × NeverPanics io prim inputs (turn io prim input c).1

-- An action that succeeds everywhere, with one value.
abbrev Gives : {S E A : Type 0} → Method S E A → A → Type 0
Gives {S} m a = (s : S) → (m s).0 ≡ ok a

then-Gives :
    {S E A B : Type 0} (m : Method S E A) (k : Method S E B) (a : A) (b : B)
    → Gives m a
    → Gives k b
    → Gives (m >> k) b
then-Gives m k a b first second s = ground (arith, first s, second (m s).1)

if-Gives :
    {S E A : Type 0} (t : Bool) (m k : Method S E A) (a : A)
    → Gives m a
    → Gives k a
    → Gives (if t then m else k) a
if-Gives true m k a first second = first
if-Gives false m k a first second = second

module _ {W : Type 0} (io : Socket W) (open' : IsOpen io) where
  send_event_ok : (event : WireEvent) (c : Client W) → (send_event io event c).0 ≡ ok tt
  unfolding send_event
  send_event_ok event c =
      let (payload, encoded) = open'.encodes event in
      ground (arith, encoded, open'.sends c.writer payload)

  module _ (prim : Primitives) where
    on_tick_ok : (c : Client W) → (on_tick io prim c).0 ≡ ok goes_on
    unfolding on_tick
    on_tick_ok c = ground (arith, send_event_ok (peer_key_event c.session) c)

    show_outcome_ok :
        (event : Option InboundEvent) (status : Option (List ℕ))
        → Gives (show_outcome io prim event status) tt
    show_outcome_ok (some (chat_text words)) status c = refl
    show_outcome_ok (some (rekey_completed epoch)) status c = refl
    show_outcome_ok none (some status) c = refl
    show_outcome_ok none none c = refl

    send_reply_ok : (reply : Option WireEvent) → Gives (send_reply io prim reply) tt
    send_reply_ok none c = refl
    send_reply_ok (some event) c = send_event_ok event c

    show_fingerprint_ok :
        (was_ready : Bool) (client : Client W)
        → Gives (show_fingerprint io prim was_ready client) tt
    show_fingerprint_ok was_ready client =
        if-Gives (not was_ready && is_ready client.session) _ _ tt
          (λ c. elim (Option-cases (peer_fingerprint prim client.session)) [
            | inl e ↦ rw e refl
            | inr (shown, e) ↦ rw e refl
          ])
          (λ c. refl)

    after_event_ok :
        (was_ready : Bool) (event : WireEvent) (heard : Result InboundOutcome ClientSessionError)
        → Gives (after_event io prim was_ready event heard) goes_on
    after_event_ok was_ready event (err e) = λ c. refl
    after_event_ok was_ready event (ok outcome) =
        then-Gives _ _ tt goes_on (show_outcome_ok outcome.event (control_status event)) (
          then-Gives _ _ tt goes_on (send_reply_ok outcome.reply_event) (λ client.
            then-Gives (show_fingerprint io prim was_ready client) _ tt goes_on
              (show_fingerprint_ok was_ready client)
              (then-Gives _ _ tt goes_on
                (if-Gives (needs_peer_key_reply was_ready event) _ _ tt
                  (send_event_ok (peer_key_event client.session)) (λ c. refl))
                (λ c. refl))
              client))

    on_message_ok :
        (message : Message) (draws : Draws) (c : Client W)
        → IsHarmless io (receives (some (ok message)) draws)
        → (on_message io prim message draws c).0 ≡ ok goes_on
    unfolding on_message IsHarmless
    on_message_ok (text_message payload) draws c (event, decoded, below) =
        let heard = handle_event prim event draws c.session in
        rw decoded
          (after_event_ok (is_ready c.session) event heard.0 (record c { session = heard.1 }))
    on_message_ok binary draws c h = refl
    on_message_ok ping draws c h = refl
    on_message_ok pong draws c h = refl
    on_message_ok frame draws c h = refl
    on_message_ok close draws c h = absurd h

    turn_ok :
        (input : Input) (c : Client W) → IsHarmless io input → (turn io prim input c).0 ≡ ok goes_on
    unfolding turn IsHarmless
    turn_ok ticks c h = on_tick_ok c
    turn_ok (reads_line read draws) c h = absurd h
    turn_ok (receives none draws) c h = absurd h
    turn_ok (receives (some (err e)) draws) c h = absurd h
    turn_ok (receives (some (ok message)) draws) c h = on_message_ok message draws c h

    event_in_range :
        (event : WireEvent) (session : Option CryptoSession)
        → IsBelow event
        → Decrypts prim event session
    event_in_range (encrypted_message envelope) (some s) below =
        decrypt_checked_below prim envelope s below
    event_in_range _ _ below = tt

    input_in_range :
        (input : Input) (session : Option CryptoSession)
        → IsHarmless io input
        → DecryptsInput io prim input session
    unfolding IsHarmless
    input_in_range (receives (some (ok (text_message payload))) draws) session
          (event, decoded, below) =
        subst (λ o. DecryptsText prim o session) (sym decoded) (event_in_range event session below)
    input_in_range _ session h = tt

    -- The loop of the client goes on over any sequence of ticks and of messages that are no text
    -- or a text that is an event, whatever the events say and the session answers, as long as the
    -- socket takes what is sent and no envelope has the epoch u32::MAX; and then no decryption of
    -- the loop panics in a build with overflow checks either. Otherwise sums wrap, as in a build
    -- without these checks.
    pub run_loop_survives :
        (inputs : List Input) (c : Client W)
        → All (IsHarmless io) inputs
        → ((run_loop io prim inputs c).0 ≡ ok goes_on) × NeverPanics io prim inputs c
    unfolding run_loop NeverPanics
    run_loop_survives [] c h = (refl, tt)
    run_loop_survives (input ∷ inputs) c (here, rest) =
        let (goes, fine) = run_loop_survives inputs (turn io prim input c).1 rest in
        (
          ground (arith, turn_ok input c here, goes),
          (input_in_range input c.session.crypto_session here, fine),
        )
