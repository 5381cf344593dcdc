-- ===== src/ChatClient/Session/Rotation.antt =====
-- A rekey between two clients, from `start_rekey` to `RekeyCompleted`.
use e2e_chat_rs.Prelude.{ℕ, ◌+◌, ◌∙◌, ◌≡◌, refl, some, none, ok, arith}
use e2e_chat_rs.Prelude.Words.{add_u32}
use e2e_chat_rs.ChatCore.Event.{EncryptedEnvelope, encrypted_message}
use e2e_chat_rs.ChatCore.Crypto.Primitives.{
  Primitives, NeverFails, DhAgrees, AeadRoundTrips, PayloadRoundTrips,
}
use e2e_chat_rs.ChatCore.Crypto.Session.{CryptoSession, SessionMethod}
use e2e_chat_rs.ChatCore.Crypto.Rekey
use e2e_chat_rs.ChatCore.Crypto.Rekey.{apply_next_master}
use e2e_chat_rs.ChatCore.Crypto.Delivery.{sent_one}
use e2e_chat_rs.ChatCore.Crypto.Linked.{Linked}
use e2e_chat_rs.ChatCore.Crypto.Phases.{
  IsIdle, completed, committed, started, staged, request_of, response_of,
}
use e2e_chat_rs.ChatCore.Crypto.Handshake.{HasRoom, Exchange, exchange}
use e2e_chat_rs.ChatClient.Session.{
  ClientSession, Draws, rekey_completed, with_session, start_rekey, encrypt_payload, handle_event,
  handle_encrypted_message, gets, handle_session_payload, commit_staged_rekey,
}

-- The client with another session inside.
abbrev pub at_session : ClientSession → CryptoSession → ClientSession
at_session c s = record c { crypto_session = some s }

pub with_session_ok :
    {A : Type 0} (m : SessionMethod A) (c : ClientSession) (s s' : CryptoSession) {a : A}
    → c.crypto_session ≡ some s
    → m s ≡ (ok a, s')
    → with_session m c ≡ (ok a, at_session c s')
unfolding with_session
with_session_ok m c s s' h e = ground arith

module _ (prim : Primitives) {max : ℕ} (law : NeverFails prim max) (agrees : DhAgrees prim)
    (round_trips : AeadRoundTrips prim) (reads_back : PayloadRoundTrips prim) (c d : ClientSession)
    (a b : CryptoSession) (x y z : Draws) where
  -- The three calls and what they leave.
  pub record Rotated : Type 0 where
    pub request : EncryptedEnvelope
    pub reply : EncryptedEnvelope
    pub a' : CryptoSession
    pub b' : CryptoSession
    pub asked : CryptoSession
    pub starts : start_rekey prim x c ≡ (ok (encrypted_message request), at_session c asked)
    pub answers : handle_event prim (encrypted_message request) y d ≡ (
      ok (record { event = none; reply_event = some (encrypted_message reply) }),
      at_session d b',
    )
    pub completes : handle_event prim (encrypted_message reply) z (at_session c asked) ≡ (
      ok (record { event = some (rekey_completed (add_u32 a.epoch 1)); reply_event = none }),
      record (at_session c a') { outbound_since_rekey = 0 },
    )
    pub linked : Linked a' b'
    pub epoch : a'.epoch ≡ add_u32 a.epoch 1
    pub idle : IsIdle a' × IsIdle b'
    pub counter : a'.next_outbound_nonce ≡ a.next_outbound_nonce + 1
    pub peer_counter : b'.next_outbound_nonce ≡ b.next_outbound_nonce + 1

  Rotated-of :
      c.crypto_session ≡ some a
      → d.crypto_session ≡ some b
      → IsIdle a
      → IsIdle b
      → Exchange prim law agrees round_trips reads_back a b x.rekey_id x.ephemeral_secret
          y.ephemeral_secret z.ephemeral_secret x.rekey_message_id y.message_id
      → Rotated
  unfolding start_rekey encrypt_payload handle_event apply_next_master
  Rotated-of hc hd idle_a idle_b e =
      let starting = started a x.rekey_id x.ephemeral_secret in
      let asked = sent_one starting in
      let request = request_of prim x.rekey_id x.ephemeral_secret in
      let response = response_of prim x.rekey_id y.ephemeral_secret in
      let staging = staged e.answerer e.next in
      record {
        request = e.request;
        reply = e.reply;
        a' = completed e.next e.asker;
        b' = committed e.next (sent_one staging);
        asked = asked;
        starts = ground (
          arith,
          with_session_ok (Rekey.start_rekey prim x.rekey_id x.ephemeral_secret) c a starting hc
              e.starts,
          with_session_ok (Rekey.encrypt_payload prim x.rekey_message_id request)
              (at_session c starting) starting asked refl e.asks,
        );
        answers =
            unfold handle_encrypted_message in
            ground (
              arith,
              with_session_ok (Rekey.decrypt_payload prim e.request) d b e.answerer hd e.arrives,
              with_session_ok (handle_session_payload prim request y.ephemeral_secret)
                  (at_session d e.answerer) e.answerer staging refl e.responds,
              with_session_ok (Rekey.encrypt_payload prim y.message_id response)
                  (at_session d staging) staging (sent_one staging) refl e.replies,
              with_session_ok commit_staged_rekey (at_session d (sent_one staging))
                  (sent_one staging) (committed e.next (sent_one staging)) refl e.commits,
            );
        completes =
            unfold handle_encrypted_message in
            ground (
              arith,
              with_session_ok (Rekey.decrypt_payload prim e.reply) (at_session c asked) asked
                  e.asker refl e.returns,
              with_session_ok (handle_session_payload prim response z.ephemeral_secret)
                  (at_session c e.asker) e.asker (completed e.next e.asker) refl e.completes,
              with_session_ok (gets (λ s. s.epoch))
                  (record (at_session c (completed e.next e.asker)) { outbound_since_rekey = 0 })
                  (completed e.next e.asker) (completed e.next e.asker) refl refl,
              e.epoch,
            );
        linked = e.linked;
        epoch = ground (arith, e.epoch);
        idle = (
          record { pending = refl; staged = e.same_asker.staged ∙ idle_a.staged },
          record { pending = e.same_answerer.pending ∙ idle_b.pending; staged = refl },
        );
        counter = e.same_asker.counter;
        peer_counter = ground (arith, e.same_answerer.counter);
      }

  -- Two ready clients whose sessions are linked and have no rekey under way complete a rekey: the
  -- request of the one is answered at once by the other, the reply completes it with the report of
  -- the new epoch and a reset of the message count, and afterwards both sessions are linked again,
  -- one epoch on. The libraries never fail and are correct, and the counters and the cipher have
  -- room for the two messages.
  pub rekey_completes :
      c.crypto_session ≡ some a
      → d.crypto_session ≡ some b
      → Linked a b
      → IsIdle a
      → IsIdle b
      → HasRoom prim law agrees round_trips reads_back a b x.rekey_id x.ephemeral_secret
          y.ephemeral_secret
      → Rotated
  rekey_completes hc hd l idle_a idle_b room = Rotated-of hc hd idle_a idle_b (
      exchange prim law agrees round_trips reads_back a b x.rekey_id x.ephemeral_secret
        y.ephemeral_secret z.ephemeral_secret x.rekey_message_id y.message_id l idle_a idle_b room)
