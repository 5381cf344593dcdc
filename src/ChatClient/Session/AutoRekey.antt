-- ===== src/ChatClient/Session/AutoRekey.antt =====
-- The automatic rekey of `encrypt_line` in session.rs.
use e2e_chat_rs.Prelude.{
  ℕ, ◌+◌, ◌≤◌, ◌<◌, ◌≡◌, refl, inl, inr, Bool, true, false, not, ◌&&◌, some, List, [], ◌∷◌, ok,
  arith, length, leb, Bool-cases,
}
use e2e_chat_rs.Prelude.Words.{u64_mod, add_u32}
use e2e_chat_rs.ChatCore.Event.{encrypted_message, chat}
use e2e_chat_rs.ChatCore.Crypto.Primitives.{
  Primitives, NeverFails, AeadRoundTrips, PayloadRoundTrips,
}
use e2e_chat_rs.ChatCore.Crypto.Session.{CryptoSession, is_rekey_in_progress}
use e2e_chat_rs.ChatCore.Crypto.Rekey
use e2e_chat_rs.ChatCore.Crypto.Delivery.{sent_one}
use e2e_chat_rs.ChatCore.Crypto.Linked.{Linked, Delivered, deliver}
use e2e_chat_rs.ChatCore.Crypto.Phases.{started, request_of, with_handshake-Linked}
use e2e_chat_rs.ChatClient.Session.{
  ClientSession, Draws, encrypt_line, encrypt_payload, start_rekey, count_outbound,
}
use e2e_chat_rs.ChatClient.Session.Rotation.{at_session, with_session_ok}
use e2e_chat_rs.ChatClient.Session.Chatting.{encrypt_payload_ok}

-- Whether a line is the one that asks for a rekey.
abbrev pub is_due : ClientSession → CryptoSession → ℕ → Bool
is_due c a threshold =
    leb threshold (add_u32 c.outbound_since_rekey 1) && not (is_rekey_in_progress a)

-- The client after a counted line.
abbrev pub counted : ClientSession → CryptoSession → ClientSession
counted c s = record (at_session c s) { outbound_since_rekey = add_u32 c.outbound_since_rekey 1 }

-- The session that has sent a line and then started a rekey.
abbrev pub asking : CryptoSession → Draws → CryptoSession
asking a x = started (sent_one a) x.rekey_id x.ephemeral_secret

module _ (prim : Primitives) {max : ℕ} (law : NeverFails prim max)
    (round_trips : AeadRoundTrips prim) (reads_back : PayloadRoundTrips prim) where
  -- A line alone, or a line with a request behind it.
  pub data Sent (c : ClientSession) (a b : CryptoSession) (x : Draws) (line : List ℕ)
      (threshold : ℕ) : Type 0 where
    alone :
        is_due c a threshold ≡ false
        → (there : Delivered prim law round_trips reads_back a b x.message_id (chat line))
        → encrypt_line prim line x c
          ≡ (ok (encrypted_message there.envelope ∷ []), counted c (sent_one a))
        → Sent c a b x line threshold
    asks :
        is_due c a threshold ≡ true
        → (there : Delivered prim law round_trips reads_back a b x.message_id (chat line))
        → (request : Delivered prim law round_trips reads_back
            (asking a x)
            there.receiver
            x.rekey_message_id
            (request_of prim x.rekey_id x.ephemeral_secret))
        → encrypt_line prim line x c ≡ (
          ok (encrypted_message there.envelope ∷ encrypted_message request.envelope ∷ []),
          counted c (sent_one (asking a x)),
        )
        → Sent c a b x line threshold

  starts_lem :
      (c : ClientSession) (a : CryptoSession) (x : Draws) (threshold : ℕ)
      → is_due c a threshold ≡ true
      → Rekey.start_rekey prim x.rekey_id x.ephemeral_secret (sent_one a)
        ≡ (ok (request_of prim x.rekey_id x.ephemeral_secret), asking a x)
  unfolding Rekey.start_rekey
  starts_lem c a x threshold due = ground arith

  asks_lem :
      (c : ClientSession) (a b : CryptoSession) (x : Draws) (line : List ℕ) (threshold : ℕ)
      → c.crypto_session ≡ some a
      → c.auto_rekey_after ≡ some threshold
      → is_due c a threshold ≡ true
      → (there : Delivered prim law round_trips reads_back a b x.message_id (chat line))
      → (request : Delivered prim law round_trips reads_back
          (asking a x)
          there.receiver
          x.rekey_message_id
          (request_of prim x.rekey_id x.ephemeral_secret))
      → encrypt_line prim line x c ≡ (
        ok (encrypted_message there.envelope ∷ encrypted_message request.envelope ∷ []),
        counted c (sent_one (asking a x)),
      )
  unfolding encrypt_line count_outbound start_rekey encrypt_payload
  asks_lem c a b x line threshold h t due there request =
      let asked = request_of prim x.rekey_id x.ephemeral_secret in
      ground (
        arith,
        encrypt_payload_ok prim law round_trips reads_back c a b x line h there,
        with_session_ok (Rekey.start_rekey prim x.rekey_id x.ephemeral_secret)
            (counted c (sent_one a)) (sent_one a) (asking a x) refl
            (starts_lem c a x threshold due),
        with_session_ok (Rekey.encrypt_payload prim x.rekey_message_id asked)
            (counted c (asking a x)) (asking a x) (sent_one (asking a x)) refl request.sent,
      )

  -- With an automatic rekey, a line of a ready client is sealed and counted. If the count reaches
  -- the threshold and no rekey is under way, a rekey is started and its request is sealed behind
  -- the line under the next nonce; otherwise the line is sent alone. The peer of a linked session
  -- opens what is sent, in order, to the line and to the request. The libraries never fail and are
  -- correct, and there is room for two messages.
  pub encrypt_line_rekeys :
      (c : ClientSession) (a b : CryptoSession) (x : Draws) (line : List ℕ) (threshold : ℕ)
      → c.crypto_session ≡ some a
      → c.auto_rekey_after ≡ some threshold
      → Linked a b
      → length (law.payload (chat line)).0 ≤ max
      → length (law.payload (request_of prim x.rekey_id x.ephemeral_secret)).0 ≤ max
      → a.next_outbound_nonce + 2 < u64_mod
      → Sent c a b x line threshold
  unfolding encrypt_line count_outbound
  encrypt_line_rekeys c a b x line threshold h t l short small room =
      let there =
        deliver prim law round_trips reads_back a b x.message_id (chat line) l short
          (omega arith) in
      let sealed = encrypt_payload_ok prim law round_trips reads_back c a b x line h there in
      elim (Bool-cases (is_due c a threshold)) [
        | inl due ↦
            let request =
              deliver prim law round_trips reads_back (asking a x) there.receiver x.rekey_message_id
                (request_of prim x.rekey_id x.ephemeral_secret)
                (with_handshake-Linked (sent_one a) there.receiver (asking a x).pending_rekey
                  there.receiver.pending_rekey a.staged_master there.receiver.staged_master
                  there.linked)
                small (omega arith) in
            asks due there request (asks_lem c a b x line threshold h t due there request)
        | inr not_due ↦ alone not_due there (ground (arith, sealed))
      ]
