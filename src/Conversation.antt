-- ===== src/Conversation.antt =====
-- A line of one client, through the relay, to the other: session.rs, router.rs and ws.rs together.
pub mod Terminals
use e2e_chat_rs.Prelude.{
  ℕ, ◌+◌, ◌≤◌, ◌<◌, ◌≡◌, Option, some, none, List, [], ◌∷◌, ◌++◌, ok, arith, length, subst, sym,
}
use e2e_chat_rs.Prelude.Words.{u64_mod}
use e2e_chat_rs.ChatCore.Types.{ClientId}
use e2e_chat_rs.ChatCore.Event.{WireEvent, EncryptedEnvelope, encrypted_message, ack, chat}
use e2e_chat_rs.ChatCore.Service.{MessageRouter, EventHook}
use e2e_chat_rs.ChatCore.Crypto.Primitives.{
  Primitives, NeverFails, AeadRoundTrips, PayloadRoundTrips,
}
use e2e_chat_rs.ChatCore.Crypto.Session.{CryptoSession}
use e2e_chat_rs.ChatCore.Crypto.Delivery.{sent_one}
use e2e_chat_rs.ChatCore.Crypto.Linked.{Linked}
use e2e_chat_rs.ChatClient.Session.{ClientSession, Draws, chat_text, encrypt_line, handle_event}
use e2e_chat_rs.ChatClient.Session.Rotation.{at_session}
use e2e_chat_rs.ChatClient.Session.Chatting.{line_arrives}
use e2e_chat_rs.ChatServer.Router.Contract.{View, Implements}
use e2e_chat_rs.ChatServer.Ws.{Channels, ServerState}
use e2e_chat_rs.ChatServer.Ws.Socket.{on_event}
use e2e_chat_rs.ChatServer.Ws.Bounded.{IsBounded}
use e2e_chat_rs.ChatServer.Ws.Delivering.{Connected, message_delivered}

module _ (prim : Primitives) {max : ℕ} (law : NeverFails prim max)
    (round_trips : AeadRoundTrips prim) (reads_back : PayloadRoundTrips prim)
    {R H A S Handle : Type 0} (m : MessageRouter R) (hook : EventHook H)
    (channels : Channels S Handle) (from_str : List ℕ → Option WireEvent)
    (queue : S → Handle → List WireEvent) (bounded : IsBounded channels queue) (view : R → View)
    (contract : Implements m view) where
  -- The relay has taken the message, and the two channels hold what it sent.
  pub record Relayed (s t : ServerState R H A S Handle) (e : EncryptedEnvelope) (ha hb : Handle)
      : Type 0 where
    pub connections : t.connections ≡ s.connections
    pub to_peer : queue t.channels hb ≡ queue s.channels hb ++ encrypted_message e ∷ []
    pub to_sender : queue t.channels ha ≡ queue s.channels ha ++ ack e.message_id ∷ []

  on_event-Relayed :
      (s : ServerState R H A S Handle) (sender recipient : ClientId) (e : EncryptedEnvelope)
      (ha hb : Handle)
      → e.sender ≡ sender
      → e.recipient ≡ recipient
      → Connected m hook channels queue bounded view contract s sender recipient ha hb [] []
      → Relayed s (on_event m hook channels from_str sender ha (encrypted_message e) s) e ha hb
  unfolding on_event
  on_event-Relayed s sender recipient e ha hb from to there =
      let here =
        subst
          (λ i. Connected m hook channels queue bounded view contract s i e.recipient ha hb [] [])
          (sym from)
          (subst (λ j. Connected m hook channels queue bounded view contract s sender j ha hb [] [])
            (sym to) there) in
      let done =
        message_delivered m hook channels queue bounded view contract s e ha hb [] [] here in
      record {
        connections = ground (arith, done, from);
        to_peer = ground (arith, done, from);
        to_sender = ground (arith, done, from);
      }

  -- A line that one client types reaches the other through the relay: the sealed message of the
  -- one, taken by the relay, is put behind what waits in the channel of the other, with an
  -- acknowledgement in the channel of the sender, no connection being lost, and the other opens it
  -- to the same line, with the sessions linked afterwards. The sessions are linked, the sender has
  -- no automatic rekey, both clients are connected through different channels with room and with
  -- empty outboxes, the router implements the specification, the channels are bounded queues, the
  -- libraries never fail and are correct, and the line and the counter have room.
  pub line_goes_through :
      (c d : ClientSession) (a b : CryptoSession) (x y : Draws) (line : List ℕ)
      (s : ServerState R H A S Handle) (ha hb : Handle)
      → c.crypto_session ≡ some a
      → d.crypto_session ≡ some b
      → c.auto_rekey_after ≡ none
      → Linked a b
      → length (law.payload (chat line)).0 ≤ max
      → a.next_outbound_nonce + 1 < u64_mod
      → Connected m hook channels queue bounded view contract s a.local_id a.peer_id ha hb [] []
      → (envelope : EncryptedEnvelope) × (b' : CryptoSession) × (encrypt_line prim line x c
          ≡ (ok (encrypted_message envelope ∷ []), at_session c (sent_one a)))
        × Relayed s
            (on_event m hook channels from_str a.local_id ha (encrypted_message envelope) s)
            envelope
            ha
            hb
        × (handle_event prim (encrypted_message envelope) y d
            ≡ (ok (record { event = some (chat_text line); reply_event = none }), at_session d b'))
        × Linked (sent_one a) b'
  line_goes_through c d a b x y line s ha hb hc hd manual l short room there =
      let (envelope, b', sends, hears, _, linked, from, to) =
        line_arrives prim law round_trips reads_back c d a b x y line hc hd manual l short room in
      (
        envelope,
        b',
        sends,
        on_event-Relayed s a.local_id a.peer_id envelope ha hb from to there,
        hears,
        linked,
      )
