-- ===== src/Conversation/Terminals.antt =====
-- A line from the terminal of one client program to that of the other: main.rs at both ends, and the
-- relay between them.
use e2e_chat_rs.Conversation.{line_goes_through}
use e2e_chat_rs.ChatServer.Ws.Delivering.{Connected}
use e2e_chat_rs.Prelude.Words.{u64_mod}
use e2e_chat_rs.ChatCore.Crypto.Linked.{Linked}
use e2e_chat_rs.ChatCore.Crypto.Delivery.{sent_one}
use e2e_chat_rs.ChatClient.Session.Rotation.{at_session}
use e2e_chat_rs.ChatCore.Crypto.Session.{CryptoSession}
use e2e_chat_rs.ChatServer.Router.Contract.{View, Implements}
use e2e_chat_rs.ChatServer.Ws.Bounded.{IsBounded}
use e2e_chat_rs.ChatServer.Ws.{Channels, ServerState}
use e2e_chat_rs.ChatCore.Service.{MessageRouter, EventHook}
use e2e_chat_rs.ChatCore.Types.{MessageId}
use e2e_chat_rs.ChatCore.Crypto.Primitives.{
  Primitives, NeverFails, AeadRoundTrips, PayloadRoundTrips,
}
use e2e_chat_rs.Prelude.{
  ℕ, ◌+◌, ◌≤◌, ◌<◌, ◌≡◌, true, false, some, none, List, [], ◌∷◌, ◌++◌, ok, arith, length, is_empty,
  text, ◌==◌, bytes_eq, Bool, Option-cases, inl, inr,
}
use e2e_chat_rs.ChatCore.Event.{WireEvent, EncryptedEnvelope, encrypted_message, ack, chat}
use e2e_chat_rs.ChatClient.Main.{
  Socket, Client, text_message, chat_line, status_line, goes_on, on_line, send_event, send_all,
  needs_peer_key_reply, control_status,
}
use e2e_chat_rs.ChatClient.Main.Inbound.{on_message}
use e2e_chat_rs.ChatServer.Ws.Socket.{on_event}
use e2e_chat_rs.ChatClient.Session.{
  chat_text, encrypt_line, handle_event, ClientSession, Draws, is_ready,
}
use e2e_chat_rs.ChatServer.Ws.Socket.{writer, received, turn, on_event}
use e2e_chat_rs.ChatServer.Ws.Socket

-- The JSON of a message and of an acknowledgement is read back, and the socket takes what is sent.
pub record Talks {W : Type 0} (io : Socket W) : Type 0 where
  pub json : EncryptedEnvelope → List ℕ
  pub ack_json : MessageId → List ℕ
  pub writes : (e : EncryptedEnvelope) → io.to_string (encrypted_message e) ≡ some (json e)
  pub reads : (e : EncryptedEnvelope) → io.from_str (json e) ≡ some (encrypted_message e)
  pub writes_ack : (id : MessageId) → io.to_string (ack id) ≡ some (ack_json id)
  pub reads_ack : (id : MessageId) → io.from_str (ack_json id) ≡ some (ack id)
  pub sends : (w : W) (raw : List ℕ) → (io.send w raw).0 ≡ true

module _ {W : Type 0} (io : Socket W) (talks : Talks io) (prim : Primitives) where
  -- A line that is sealed is sent as one text.
  on_line-sends :
      (c : Client W) (d : ClientSession) (e : EncryptedEnvelope) (x : Draws) (line : List ℕ)
      → is_empty line ≡ false
      → (line == text "/rekey") ≡ false
      → encrypt_line prim line x c.session ≡ (ok (encrypted_message e ∷ []), d)
      → on_line io prim line x c
        ≡ (ok goes_on, record c { session = d; writer = (io.send c.writer (talks.json e)).1 })
  unfolding on_line send_all send_event
  on_line-sends c d e x line some_line no_command sealed =
      ground (arith, sealed, talks.writes e, talks.sends c.writer (talks.json e))

  -- The text of a message that is opened is shown.
  on_message-shows :
      (c : Client W) (d : ClientSession) (e : EncryptedEnvelope) (y : Draws) (line : List ℕ)
      → is_ready c.session ≡ true
      → handle_event prim (encrypted_message e) y c.session
        ≡ (ok (record { event = some (chat_text line); reply_event = none }), d)
      → on_message io prim (text_message (talks.json e)) y c
        ≡ (ok goes_on, record c { session = d; terminal = c.terminal ++ chat_line line ∷ [] })
  unfolding on_message needs_peer_key_reply control_status
  on_message-shows c d e y line ready opened = ground (arith, opened, talks.reads e)

  on_message-confirms :
      (c : Client W) (id : MessageId) (z : Draws)
      → is_ready c.session ≡ true
      → on_message io prim (text_message (talks.ack_json id)) z c ≡ (
        ok goes_on,
        record c { terminal = c.terminal ++ status_line (text "message delivered to relay") ∷ [] },
      )
  unfolding on_message needs_peer_key_reply control_status handle_event
  on_message-confirms c id z ready = ground (arith, talks.reads_ack id)

module _ {W V : Type 0} (io : Socket W) (talks : Talks io) (deliver : V → List ℕ → Bool × V)
    (stays : (v : V) (raw : List ℕ) → (deliver v raw).0 ≡ true) where
  -- A writer whose socket stays open comes to the last event of its queue, and sends its text.
  writer-last :
      (events : List WireEvent) (event : WireEvent) (raw : List ℕ) (v : V)
      → io.to_string event ≡ some raw
      → writer io.to_string deliver (events ++ event ∷ []) v
        ≡ (deliver (writer io.to_string deliver events v) raw).1
  unfolding writer
  writer-last [] event raw v encoded = ground (arith, encoded, stays v raw)
  writer-last (first ∷ events) event raw v encoded = elim (Option-cases (io.to_string first)) [
    | inl no_text ↦ ground (arith, no_text, writer-last events event raw v encoded)
    | inr (before, has_text) ↦
        ground (
          arith,
          has_text,
          stays v before,
          writer-last events event raw (deliver v before).1 encoded,
        )
  ]

module _ (prim : Primitives) {max : ℕ} (law : NeverFails prim max)
    (round_trips : AeadRoundTrips prim) (reads_back : PayloadRoundTrips prim)
    {R H A S Handle W V : Type 0} (m : MessageRouter R) (hook : EventHook H)
    (channels : Channels S Handle) (queue : S → Handle → List WireEvent)
    (bounded : IsBounded channels queue) (view : R → View) (contract : Implements m view)
    (io : Socket W) (talks : Talks io) (deliver : V → List ℕ → Bool × V)
    (stays : (v : V) (raw : List ℕ) → (deliver v raw).0 ≡ true) where
  -- The two programs, the relay and its two writers, once the line has gone through.
  pub record Through (c d : Client W) (a : CryptoSession) (x y z : Draws) (line : List ℕ)
      (s : ServerState R H A S Handle) (ha hb : Handle) (va vb : V) : Type 0 where
    pub sent : EncryptedEnvelope
    pub receiver : CryptoSession
    pub relay : ServerState R H A S Handle
    pub typed : on_line io prim line x c ≡ (
      ok goes_on,
      record c {
        session = at_session (c.session) (sent_one a);
        writer = (io.send c.writer (talks.json sent)).1;
      },
    )
    pub relayed :
        turn m hook channels io.from_str a.local_id ha
          (received (some (Socket.text_message (talks.json sent))))
          s
        ≡ (true, relay)
    pub connections : relay.connections ≡ s.connections
    pub written :
        writer io.to_string deliver (queue relay.channels hb) vb
        ≡ (deliver (writer io.to_string deliver (queue s.channels hb) vb) (talks.json sent)).1
    pub shown : on_message io prim (text_message (talks.json sent)) y d ≡ (
      ok goes_on,
      record d {
        session = at_session (d.session) receiver;
        terminal = d.terminal ++ chat_line line ∷ [];
      },
    )
    pub written_back :
        writer io.to_string deliver (queue relay.channels ha) va
        ≡ (deliver
            (writer io.to_string deliver (queue s.channels ha) va)
            (talks.ack_json sent.message_id)).1
    pub confirmed :
        let after = (on_line io prim line x c).1 in
        on_message io prim (text_message (talks.ack_json sent.message_id)) z after ≡ (
          ok goes_on,
          record after {
            terminal = after.terminal ++ status_line (text "message delivered to relay") ∷ [];
          },
        )
    pub linked : Linked (sent_one a) receiver

  -- A line that is typed at the terminal of one client program is shown at the terminal of the
  -- other: the program seals it and sends it as one text, the turn of the relay on that text puts
  -- events for both clients in their channels and loses no connection, the writers send behind
  -- what they had to send the same text to the one and an acknowledgement to the other, and on
  -- these texts the other program prints the line and the first prints that the message was
  -- delivered to the relay; the sessions are linked afterwards. The line is not empty and not the
  -- command for a rekey, the sessions are linked, the sender has no automatic rekey, both clients
  -- are connected through different channels with room and with empty outboxes, the router
  -- implements the specification, the channels are bounded queues, messages and acknowledgements
  -- are read back from their JSON, the sockets take what is sent, the libraries never fail and are
  -- correct, and the line and the counter have room.
  pub terminal_to_terminal :
      (c d : Client W) (a b : CryptoSession) (x y z : Draws) (line : List ℕ)
      (s : ServerState R H A S Handle) (ha hb : Handle) (va vb : V)
      → is_empty line ≡ false
      → (line == text "/rekey") ≡ false
      → c.session.crypto_session ≡ some a
      → d.session.crypto_session ≡ some b
      → c.session.auto_rekey_after ≡ none
      → Linked a b
      → length (law.payload (chat line)).0 ≤ max
      → a.next_outbound_nonce + 1 < u64_mod
      → Connected m hook channels queue bounded view contract s a.local_id a.peer_id ha hb [] []
      → Through c d a x y z line s ha hb va vb
  unfolding turn
  terminal_to_terminal c d a b x y z line s ha hb va vb some_line no_command hc hd manual l short
        room there =
      let (e, b', seals, done, opens, linked) =
        line_goes_through prim law round_trips reads_back m hook channels io.from_str queue bounded
          view contract c.session d.session a b x y line s ha hb hc hd manual l short room there in
      let typed =
        on_line-sends io talks prim c (at_session (c.session) (sent_one a)) e x line some_line
          no_command seals in
      record {
        sent = e;
        receiver = b';
        relay = on_event m hook channels io.from_str a.local_id ha (encrypted_message e) s;
        typed = typed;
        relayed = ground (arith, talks.reads e);
        connections = done.connections;
        written = rw done.to_peer (
            writer-last io talks deliver stays (queue s.channels hb) (encrypted_message e)
              (talks.json e) vb (talks.writes e));
        shown =
            on_message-shows io talks prim d (at_session (d.session) b') e y line (ground arith)
              opens;
        written_back = rw done.to_sender (
            writer-last io talks deliver stays (queue s.channels ha) (ack e.message_id)
              (talks.ack_json e.message_id) va (talks.writes_ack e.message_id));
        confirmed =
            on_message-confirms io talks prim (on_line io prim line x c).1 e.message_id z
              (ground (arith, typed));
        linked = linked;
      }
