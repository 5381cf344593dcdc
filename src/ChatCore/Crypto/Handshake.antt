-- ===== src/ChatCore/Crypto/Handshake.antt =====
-- The rekey handshake between two linked sessions.
use e2e_chat_rs.Prelude.{ℕ, ◌+◌, ◌≤◌, ◌<◌, ◌≡◌, refl, sym, ◌∙◌, some, none, ok, arith, length, ℕ_eq}
use e2e_chat_rs.Prelude.Words.{u64_mod}
use e2e_chat_rs.ChatCore.Types.{MessageId, RekeyId}
use e2e_chat_rs.ChatCore.Event.{EncryptedEnvelope}
use e2e_chat_rs.ChatCore.Crypto.Primitives.{
  Bytes, Primitives, NeverFails, DhAgrees, AeadRoundTrips, PayloadRoundTrips,
}
use e2e_chat_rs.ChatCore.Crypto.Session.{CryptoSession}
use e2e_chat_rs.ChatCore.Crypto.Rekey.{
  encrypt_payload, decrypt_payload, start_rekey, handle_session_payload, commit_staged_rekey,
  compute_next_master, rekey_master_label,
}
use e2e_chat_rs.ChatCore.Crypto.Delivery.{sent_one}
use e2e_chat_rs.ChatCore.Crypto.Linked.{Linked, Linked-sym, SameButMarks, Delivered, deliver}
use e2e_chat_rs.ChatCore.Crypto.Phases.{
  IsIdle, completed, committed, rotated-Linked, with_handshake-Linked, started, staged, request_of,
  response_of,
}

module _ (prim : Primitives) {max : ℕ} (law : NeverFails prim max) (agrees : DhAgrees prim)
    (round_trips : AeadRoundTrips prim) (reads_back : PayloadRoundTrips prim) where
  -- The master that both ends compute.
  pub next_master : CryptoSession → Bytes → Bytes → Bytes
  next_master s own_secret peer_secret =
      (law.expands s.master_secret (prim.x25519 own_secret (prim.x25519_public peer_secret))
        rekey_master_label).0

  compute_next_master_ok :
      (s : CryptoSession) (own peer : Bytes)
      → compute_next_master prim s (prim.x25519 own (prim.x25519_public peer))
        ≡ ok (next_master s own peer)
  unfolding compute_next_master next_master
  compute_next_master_ok s own peer =
      let expanded =
        law.expands s.master_secret (prim.x25519 own (prim.x25519_public peer))
          rekey_master_label in
      ground (arith, expanded)

  next_master_comm :
      (a b : CryptoSession) (x y : Bytes)
      → b.master_secret ≡ a.master_secret
      → next_master b y x ≡ next_master a x y
  unfolding next_master
  next_master_comm a b x y m = λ i. (law.expands (m i) (agrees y x i) rekey_master_label).0

  start_rekey_ok :
      (a : CryptoSession) (id : RekeyId) (secret : Bytes)
      → a.pending_rekey ≡ none
      → start_rekey prim id secret a ≡ (
        ok (request_of prim id secret),
        record a { pending_rekey = some (record { rekey_id = id; ephemeral_secret = secret }) },
      )
  unfolding start_rekey
  start_rekey_ok a id secret h = ground arith

  respond_ok :
      (b : CryptoSession) (id : RekeyId) (own peer : Bytes)
      → IsIdle b
      → handle_session_payload prim (request_of prim id peer) own b ≡ (
        ok (some (response_of prim id own)),
        record b { staged_master = some (next_master b own peer) },
      )
  unfolding handle_session_payload
  respond_ok b id own peer idle = ground (arith, compute_next_master_ok b own peer)

  complete_ok :
      (a : CryptoSession) (id : RekeyId) (own peer drawn : Bytes)
      → a.pending_rekey ≡ some (record { rekey_id = id; ephemeral_secret = own })
      → handle_session_payload prim (response_of prim id peer) drawn a
        ≡ (ok none, completed (next_master a own peer) a)
  unfolding handle_session_payload
  complete_ok a id own peer drawn h = ground (arith, compute_next_master_ok a own peer)

  commit_ok :
      (b : CryptoSession) (next : Bytes)
      → b.staged_master ≡ some next
      → commit_staged_rekey b ≡ (ok tt, committed next b)
  unfolding commit_staged_rekey
  commit_ok b next h = ground arith

  -- A whole handshake, step by step. `asker` is the initiator once it has decrypted the reply,
  -- `answerer` the responder once it has decrypted the request.
  pub record Exchange (a b : CryptoSession) (id : RekeyId) (ea eb drawn : Bytes) (m n : MessageId)
      : Type 0 where
    pub request : EncryptedEnvelope
    pub reply : EncryptedEnvelope
    pub asker : CryptoSession
    pub answerer : CryptoSession
    pub next : Bytes
    pub starts : start_rekey prim id ea a ≡ (ok (request_of prim id ea), started a id ea)
    pub asks :
        encrypt_payload prim m (request_of prim id ea) (started a id ea)
        ≡ (ok request, sent_one (started a id ea))
    pub arrives : decrypt_payload prim request b ≡ (ok (request_of prim id ea), answerer)
    pub responds :
        handle_session_payload prim (request_of prim id ea) eb answerer
        ≡ (ok (some (response_of prim id eb)), staged answerer next)
    pub replies :
        encrypt_payload prim n (response_of prim id eb) (staged answerer next)
        ≡ (ok reply, sent_one (staged answerer next))
    pub commits :
        commit_staged_rekey (sent_one (staged answerer next))
        ≡ (ok tt, committed next (sent_one (staged answerer next)))
    pub returns :
        decrypt_payload prim reply (sent_one (started a id ea))
        ≡ (ok (response_of prim id eb), asker)
    pub completes :
        handle_session_payload prim (response_of prim id eb) drawn asker
        ≡ (ok none, completed next asker)
    pub linked : Linked (completed next asker) (committed next (sent_one (staged answerer next)))
    pub epoch : asker.epoch ≡ a.epoch
    pub same_asker : SameButMarks (sent_one (started a id ea)) asker
    pub same_answerer : SameButMarks b answerer
    pub chained : next ≡ next_master a ea eb

  -- Room for the messages of a handshake, in the counters and in the cipher.
  pub record HasRoom (a b : CryptoSession) (id : RekeyId) (ea eb : Bytes) : Type 0 where
    pub request_fits : length (law.payload (request_of prim id ea)).0 ≤ max
    pub reply_fits : length (law.payload (response_of prim id eb)).0 ≤ max
    pub initiator : a.next_outbound_nonce + 1 < u64_mod
    pub responder : b.next_outbound_nonce + 1 < u64_mod

  -- The steps, given the two deliveries.
  Exchange-of :
      (a b : CryptoSession) (id : RekeyId) (ea eb drawn : Bytes) (m n : MessageId)
      → IsIdle a
      → IsIdle b
      → (there : Delivered prim law round_trips reads_back
          (started a id ea)
          b
          m
          (request_of prim id ea))
      → Delivered prim law round_trips reads_back
          (staged there.receiver (next_master there.receiver eb ea))
          (sent_one (started a id ea))
          n
          (response_of prim id eb)
      → Exchange a b id ea eb drawn m n
  Exchange-of a b id ea eb drawn m n idle_a idle_b there back =
      let next = next_master there.receiver eb ea in
      let agreed : next ≡ next_master back.receiver ea eb =
        next_master_comm back.receiver there.receiver ea eb (sym back.linked.sync.master) in
      record {
        request = there.envelope;
        reply = back.envelope;
        asker = back.receiver;
        answerer = there.receiver;
        next = next;
        starts = start_rekey_ok a id ea idle_a.pending;
        asks = there.sent;
        arrives = there.received;
        responds = respond_ok there.receiver id eb ea (record {
          pending = there.same.pending ∙ idle_b.pending;
          staged = there.same.staged ∙ idle_b.staged;
        });
        replies = back.sent;
        commits = commit_ok (sent_one (staged there.receiver next)) next refl;
        returns = back.received;
        completes = rw agreed (complete_ok back.receiver id ea eb drawn back.same.pending);
        linked =
            rotated-Linked next back.receiver (sent_one (staged there.receiver next))
              (Linked-sym _ _ back.linked);
        epoch = back.same.epoch;
        same_asker = back.same;
        same_answerer = there.same;
        chained = next_master_comm a there.receiver ea eb there.linked.sync.master;
      }

  -- Between two linked sessions that have no rekey under way, every step of a rekey handshake
  -- succeeds, from the request to the completion: both compute one master, derived from the old
  -- one and the two fresh keys, and afterwards the sessions are linked again, both with that
  -- master. The libraries never fail and are correct, and there is room for the two messages.
  pub exchange :
      (a b : CryptoSession) (id : RekeyId) (ea eb drawn : Bytes) (m n : MessageId)
      → Linked a b
      → IsIdle a
      → IsIdle b
      → HasRoom a b id ea eb
      → Exchange a b id ea eb drawn m n
  exchange a b id ea eb drawn m n l idle_a idle_b room =
      let there =
        deliver prim law round_trips reads_back (started a id ea) b m (request_of prim id ea)
          (with_handshake-Linked a b (started a id ea).pending_rekey b.pending_rekey a.staged_master
            b.staged_master l)
          room.request_fits room.initiator in
      let next = next_master there.receiver eb ea in
      Exchange-of a b id ea eb drawn m n idle_a idle_b there (
        deliver prim law round_trips reads_back (staged there.receiver next)
          (sent_one (started a id ea)) n (response_of prim id eb)
          (with_handshake-Linked there.receiver (sent_one (started a id ea))
            there.receiver.pending_rekey (started a id ea).pending_rekey (some next) a.staged_master
            (Linked-sym _ _ there.linked))
          room.reply_fits (rw there.same.counter room.responder))
