-- ===== src/ChatCore/Crypto/Linked.antt =====
-- Two sessions of one conversation: they agree on the keys, and neither has yet seen a nonce that
-- the other will use.
use e2e_chat_rs.Prelude.{
  ℕ, ◌+◌, ◌≤◌, ◌<◌, ◌≡◌, ◌≢◌, sym, ◌∙◌, false, ok, arith, length, get_or, ℕ_eq,
}
use e2e_chat_rs.Prelude.Words.{u64_mod}
use e2e_chat_rs.Prelude.Maps
use e2e_chat_rs.ChatCore.Types.{MessageId, NonceBytes}
use e2e_chat_rs.ChatCore.Nonce.{mark_seen}
use e2e_chat_rs.ChatCore.Nonce
use e2e_chat_rs.ChatCore.Event.{EncryptedEnvelope, SessionPayload}
use e2e_chat_rs.ChatCore.Crypto.Primitives.{
  Bytes, Primitives, NeverFails, AeadRoundTrips, PayloadRoundTrips,
}
use e2e_chat_rs.ChatCore.Crypto.Session.{CryptoSession}
use e2e_chat_rs.ChatCore.Crypto.Cipher.{open_envelope, decrypt, mark_inbound}
use e2e_chat_rs.ChatCore.Crypto.Rekey.{encrypt_payload, decrypt_payload}
use e2e_chat_rs.ChatCore.Crypto.OutboundNonces.{nonce_at, nonce_at-ne}
use e2e_chat_rs.ChatCore.Crypto.Marks.{seen, mark_inbound_lem}
use e2e_chat_rs.ChatCore.Crypto.Delivery.{InSync, sent_one, encrypt-Conveys}

-- No nonce that `a` has still to send is marked at `b`, in any epoch.
abbrev pub Expects : CryptoSession → CryptoSession → Type 0
Expects b a =
    (e n : ℕ)
    → a.next_outbound_nonce < n
    → n < u64_mod
    → seen b e (nonce_at a.outbound_nonce_prefix n) ≡ false

pub record Linked (a b : CryptoSession) : Type 0 where
  pub sync : InSync a b
  pub forth : Expects b a
  pub back : Expects a b

pub Linked-sym : (a b : CryptoSession) → Linked a b → Linked b a
Linked-sym a b l = record {
  sync = record {
    master = sym l.sync.master;
    info = sym l.sync.info;
    epoch = sym l.sync.epoch;
    to_peer = sym l.sync.from_peer;
    from_peer = sym l.sync.to_peer;
  };
  forth = l.back;
  back = l.forth;
}

-- What marking a nonce leaves alone.
pub record SameButMarks (b b' : CryptoSession) : Type 0 where
  pub master : b'.master_secret ≡ b.master_secret
  pub info : b'.session_info ≡ b.session_info
  pub local : b'.local_id ≡ b.local_id
  pub peer : b'.peer_id ≡ b.peer_id
  pub prefix : b'.outbound_nonce_prefix ≡ b.outbound_nonce_prefix
  pub counter : b'.next_outbound_nonce ≡ b.next_outbound_nonce
  pub epoch : b'.epoch ≡ b.epoch
  pub pending : b'.pending_rekey ≡ b.pending_rekey
  pub staged : b'.staged_master ≡ b.staged_master

pub mark_inbound-SameButMarks :
    (epoch : ℕ) (nonce : NonceBytes) (s : CryptoSession)
    → SameButMarks s (mark_inbound epoch nonce s).1
unfolding mark_inbound
mark_inbound-SameButMarks epoch nonce s = ground arith

mark_inbound-unseen :
    (epoch e : ℕ) (nonce n : NonceBytes) (s : CryptoSession)
    → nonce ≢ n
    → seen s e n ≡ false
    → seen (mark_inbound epoch nonce s).1 e n ≡ false
unfolding mark_inbound mark_seen
mark_inbound-unseen epoch e nonce n s ne h = ground (
  arith,
  Maps.get-insert s.inbound_nonces epoch e
      (mark_seen (get_or (Maps.get s.inbound_nonces epoch) Nonce.default) nonce).1,
)

-- `b` after it took the next envelope of `a`.
mark_inbound-Linked :
    (a b : CryptoSession) (epoch : ℕ)
    → a.next_outbound_nonce + 1 < u64_mod
    → Linked a b
    → Linked
        (sent_one a)
        (mark_inbound epoch (nonce_at a.outbound_nonce_prefix (a.next_outbound_nonce + 1)) b).1
mark_inbound-Linked a b epoch room l =
    let nonce = nonce_at a.outbound_nonce_prefix (a.next_outbound_nonce + 1) in
    let same = mark_inbound-SameButMarks epoch nonce b in
    record {
      sync = record {
        master = same.master ∙ l.sync.master;
        info = same.info ∙ l.sync.info;
        epoch = same.epoch ∙ l.sync.epoch;
        to_peer = same.local ∙ l.sync.to_peer;
        from_peer = same.peer ∙ l.sync.from_peer;
      };
      forth = λ e n later fits.
          mark_inbound-unseen epoch e nonce (nonce_at a.outbound_nonce_prefix n) b
            (nonce_at-ne a.outbound_nonce_prefix (a.next_outbound_nonce + 1) n later fits)
            (l.forth e n (omega arith) fits);
      back = λ e n later fits. rw same.prefix (l.back e n (ground (arith, same)) fits);
    }

module _ (prim : Primitives) {max : ℕ} (law : NeverFails prim max)
    (round_trips : AeadRoundTrips prim) (reads_back : PayloadRoundTrips prim) where
  -- A payload sent by `a` reaches `b`.
  pub record Delivered (a b : CryptoSession) (id : MessageId) (payload : SessionPayload)
      : Type 0 where
    pub envelope : EncryptedEnvelope
    pub receiver : CryptoSession
    pub sent : encrypt_payload prim id payload a ≡ (ok envelope, sent_one a)
    pub received : decrypt_payload prim envelope b ≡ (ok payload, receiver)
    pub same : SameButMarks b receiver
    pub linked : Linked (sent_one a) receiver

  decrypt-opened :
      (envelope : EncryptedEnvelope) (b : CryptoSession) (plaintext : Bytes)
      → open_envelope prim envelope b ≡ ok plaintext
      → seen b envelope.epoch envelope.nonce ≡ false
      → decrypt prim envelope b ≡ (ok plaintext, (mark_inbound envelope.epoch envelope.nonce b).1)
  unfolding decrypt
  decrypt-opened envelope b plaintext opens fresh =
      ground (arith, mark_inbound_lem envelope.epoch envelope.nonce b)

  -- A payload that one of two linked sessions encrypts is decrypted by the other to the same
  -- payload, which changes nothing there but the marked nonces, and the sessions are linked
  -- afterwards. The libraries never fail and are correct, the payload is short enough for the
  -- cipher, and the counter has room.
  pub deliver :
      (a b : CryptoSession) (id : MessageId) (payload : SessionPayload)
      → Linked a b
      → length (law.payload payload).0 ≤ max
      → a.next_outbound_nonce + 1 < u64_mod
      → Delivered a b id payload
  deliver a b id payload l short room =
      let (bytes, written) = law.payload payload in
      let (envelope, sealed, conveys) =
        encrypt-Conveys prim law round_trips a b id bytes l.sync short room in
      let next = nonce_at a.outbound_nonce_prefix (a.next_outbound_nonce + 1) in
      let fresh : seen b envelope.epoch envelope.nonce ≡ false =
        rw conveys.nonce (l.forth envelope.epoch (a.next_outbound_nonce + 1) (omega arith) room) in
      let opened = decrypt-opened envelope b bytes conveys.opens fresh in
      record {
        envelope = envelope;
        receiver = (mark_inbound envelope.epoch next b).1;
        sent = unfold encrypt_payload in ground (arith, sealed, written);
        received =
            unfold decrypt_payload in
            ground (arith, opened, reads_back payload bytes written, conveys.nonce);
        same = mark_inbound-SameButMarks envelope.epoch next b;
        linked = mark_inbound-Linked a b envelope.epoch room l;
      }
