-- ===== src/Tests/Units/Conversations.antt =====
-- The unit tests of crates/chat-client/src/session.rs, over any libraries, and at the stand-ins.
use e2e_chat_rs.Prelude.{
  ◌≡◌, refl, ℕ, ℕ_discrete, bytes_discrete, List, [], ◌∷◌, Bool, true, false, Option, none, some,
  ok, err, text, Result, length, replicate,
}
use e2e_chat_rs.Prelude.Words.{to_be_bytes}
use e2e_chat_rs.Prelude.Maps
use e2e_chat_rs.ChatCore.Types.{
  ClientId-discrete, PublicKeyBytes, PublicKeyBytes-discrete, NonceBytes-discrete, RekeyId-discrete,
}
use e2e_chat_rs.ChatCore.Nonce.{mark_seen}
use e2e_chat_rs.ChatCore.Event.{WireEvent, client_hello, peer_key}
use e2e_chat_rs.ChatCore.Crypto.Primitives.{Bytes, Primitives}
use e2e_chat_rs.ChatCore.Crypto.Info.{session_info, nonce_prefix, str_le, fingerprint, hex}
use e2e_chat_rs.ChatCore.Crypto.Session.{generate, duplicate_nonce}
use e2e_chat_rs.ChatCore.Crypto.Cipher.{
  encrypt, decrypt, next_nonce, cipher_for, associated_data_for, open_envelope, accepts_epoch,
  mark_inbound,
}
use e2e_chat_rs.ChatCore.Crypto.Rekey.{
  handle_session_payload, commit_staged_rekey, decrypt_payload, apply_next_master,
}
use e2e_chat_rs.ChatCore.Crypto.Rekey
use e2e_chat_rs.ChatCore.Crypto.Session as CryptoState
use e2e_chat_rs.ChatClient.Texts.{to_lowercase, trim, is_whitespace, trim_start}
use e2e_chat_rs.ChatClient.Session.{
  ClientSession, ClientSessionError, InboundEvent, InboundOutcome, Draws, chat_text,
  rekey_completed, crypto, peer_key_fingerprint_mismatch, unexpected_peer_key, set_auto_rekey_after,
  expect_peer_fingerprint, peer_fingerprint, client_hello_event, peer_key_event, is_ready,
  with_session, encrypt_payload, start_rekey, encrypt_line, count_outbound, handle_event,
  handle_encrypted_message, on_payload, send_reply, accept_peer_key,
}
use e2e_chat_rs.ChatClient.Session
use e2e_chat_rs.Tests.Core.{alice, bob}
use e2e_chat_rs.Tests.Clients.{draws}
use e2e_chat_rs.Tests.Units.Sessions.{Expect}
use e2e_chat_rs.Tests.Toy.{toy}

abbrev First : List WireEvent → (WireEvent → Type 0) → Type 0
First [] k = ⊥
First (event ∷ events) k = k event

abbrev Second : List WireEvent → (WireEvent → Type 0) → Type 0
Second (event ∷ other ∷ events) k = k other
Second _ k = ⊥

abbrev Reply : InboundOutcome → (WireEvent → Type 0) → Type 0
Reply outcome k = elim outcome.reply_event [ none ↦ ⊥ | some event ↦ k event ]

abbrev is_client_hello : WireEvent → Bool
is_client_hello (client_hello client_id public_key) = true
is_client_hello _ = false

abbrev is_peer_key : WireEvent → Bool
is_peer_key (peer_key from to public_key) = true
is_peer_key _ = false

abbrev is_chat : Option InboundEvent → Bool
is_chat (some (chat_text words)) = true
is_chat _ = false

module _ (prim : Primitives) (ka kb km : Bytes) (x : ℕ → Draws) where
  abbrev new_alice : ClientSession
  new_alice = Session.new prim alice bob ka

  abbrev new_bob : ClientSession
  new_bob = Session.new prim bob alice kb

  -- Both have heard the key of the other.
  abbrev heard_bob : Result InboundOutcome ClientSessionError × ClientSession
  heard_bob = handle_event prim (peer_key_event new_alice) (x 0) new_bob

  abbrev heard_alice : Result InboundOutcome ClientSessionError × ClientSession
  heard_alice = handle_event prim (peer_key_event heard_bob.1) (x 1) new_alice

  BuildsHelloAndPeerKeyWithoutPlaintext : Type 0
  BuildsHelloAndPeerKeyWithoutPlaintext =
      (is_client_hello (client_hello_event new_alice) ≡ true)
      × (is_peer_key (peer_key_event new_alice) ≡ true)

  EncryptsAndDecryptsLineAfterPeerKeyExchange : Type 0
  EncryptsAndDecryptsLineAfterPeerKeyExchange = Expect heard_bob.0 (λ _. Expect heard_alice.0 (λ _.
      Expect (encrypt_line prim (text "hello bob") (x 2) heard_alice.1).0 (λ events.
        (length events ≡ 1)
        × First events (λ event. Expect (handle_event prim event (x 3) heard_bob.1).0 (λ outcome.
          (outcome.reply_event ≡ none) × (outcome.event ≡ some (chat_text (text "hello bob"))))))))

  CompletesRekeyHandshakeFromInboundRequestAndReplies : Type 0
  CompletesRekeyHandshakeFromInboundRequestAndReplies =
      let request = start_rekey prim (x 2) heard_alice.1 in
      Expect heard_bob.0 (λ _. Expect heard_alice.0 (λ _. Expect request.0 (λ request_envelope.
        let answer = handle_event prim request_envelope (x 3) heard_bob.1 in
        Expect answer.0 (λ outcome. Reply outcome (λ reply_envelope.
          let done = handle_event prim reply_envelope (x 4) request.1 in
          (outcome.event ≡ none)
          × Expect done.0 (λ outcome.
            (outcome.event ≡ some (rekey_completed 1))
            × Expect (encrypt_line prim (text "fresh keys") (x 5) done.1).0 (λ events.
              (length events ≡ 1)
              × First events (λ event.
                Expect (handle_event prim event (x 6) answer.1).0
                  (λ outcome. outcome.event ≡ some (chat_text (text "fresh keys")))))))))))

  AppendsRekeyRequestAfterThresholdOutboundMessages : Type 0
  AppendsRekeyRequestAfterThresholdOutboundMessages =
      let one = encrypt_line prim (text "one") (x 2) (set_auto_rekey_after 3 heard_alice.1) in
      let two = encrypt_line prim (text "two") (x 3) one.1 in
      let three = encrypt_line prim (text "three") (x 4) two.1 in
      Expect heard_bob.0 (λ _. Expect heard_alice.0 (λ _.
        Expect one.0 (λ events. length events ≡ 1)
        × Expect two.0 (λ events. length events ≡ 1)
        × Expect three.0 (λ events.
          (length events ≡ 2)
          × First events (λ message. Second events (λ request.
            let told = handle_event prim message (x 5) heard_bob.1 in
            let answer = handle_event prim request (x 6) told.1 in
            Expect told.0 (λ outcome. is_chat outcome.event ≡ true)
            × Expect answer.0 (λ outcome. Reply outcome (λ reply_envelope.
              let done = handle_event prim reply_envelope (x 7) three.1 in
              Expect done.0 (λ outcome.
                (outcome.event ≡ some (rekey_completed 1))
                × Expect (encrypt_line prim (text "post-rekey") (x 8) done.1).0
                    (λ events. length events ≡ 1)))))))))

  SkipsAutoRekeyWhileHandshakeIsInProgress : Type 0
  SkipsAutoRekeyWhileHandshakeIsInProgress =
      let one = encrypt_line prim (text "one") (x 2) (set_auto_rekey_after 1 heard_alice.1) in
      let two = encrypt_line prim (text "two") (x 3) one.1 in
      Expect heard_bob.0 (λ _. Expect heard_alice.0 (λ _.
        Expect one.0 (λ events. length events ≡ 2) × Expect two.0 (λ events. length events ≡ 1)))

  ReportsReadyAfterPeerKeyExchange : Type 0
  ReportsReadyAfterPeerKeyExchange =
      let heard = handle_event prim (peer_key_event new_bob) (x 0) new_alice in
      (is_ready new_alice ≡ false) × Expect heard.0 (λ _. is_ready heard.1 ≡ true)

  KeepsReplayProtectionAfterDuplicatePeerKey : Type 0
  KeepsReplayProtectionAfterDuplicatePeerKey = Expect heard_bob.0 (λ _. Expect heard_alice.0 (λ _.
      Expect (encrypt_line prim (text "hello bob") (x 2) heard_alice.1).0 (λ events.
        First events (λ event.
          let once = handle_event prim event (x 3) heard_bob.1 in
          let again = handle_event prim (peer_key_event new_alice) (x 4) once.1 in
          Expect once.0 (λ _.
            Expect again.0
              (λ _. (handle_event prim event (x 5) again.1).0 ≡ err (crypto duplicate_nonce)))))))

  RejectsChangedPeerKeyAfterSessionReady : Type 0
  RejectsChangedPeerKeyAfterSessionReady = Expect heard_bob.0 (λ _.
      (handle_event prim (peer_key_event (Session.new prim alice bob km)) (x 1) heard_bob.1).0
      ≡ err unexpected_peer_key)

  ReportsReceivedPeerFingerprintForDisplay : Type 0
  ReportsReceivedPeerFingerprintForDisplay =
      let heard = handle_event prim (peer_key_event new_bob) (x 0) new_alice in
      (peer_fingerprint prim new_alice ≡ none)
      × Expect heard.0
          (λ _. peer_fingerprint prim heard.1 ≡ some (fingerprint prim new_bob.keypair.public_key))

  module _ (lower : ℕ → List ℕ) where
    AcceptsPeerKeyMatchingExpectedFingerprint : Type 0
    AcceptsPeerKeyMatchingExpectedFingerprint =
        let pinned =
          expect_peer_fingerprint lower (fingerprint prim new_bob.keypair.public_key) new_alice in
        let heard = handle_event prim (peer_key_event new_bob) (x 0) pinned in
        Expect heard.0 (λ _. is_ready heard.1 ≡ true)

    RejectsMismatchedFingerprintAndStaysUnready : Type 0
    RejectsMismatchedFingerprintAndStaysUnready =
        let other : PublicKeyBytes = record { bytes = replicate 32 9 } in
        let pinned = expect_peer_fingerprint lower (fingerprint prim other) new_alice in
        let heard =
          handle_event prim (peer_key_event (Session.new prim bob alice km)) (x 0) pinned in
        (heard.0 ≡ err peer_key_fingerprint_mismatch)
        × (is_ready heard.1 ≡ false)
        × (elim (encrypt_line prim (text "hello") (x 1) heard.1).0 [ ok _ ↦ ⊥ | err _ ↦ Unit ])

abbrev x : ℕ → Draws
x k = draws k (k ∷ [])

lines_pass :
    BuildsHelloAndPeerKeyWithoutPlaintext toy (3 ∷ []) (4 ∷ []) (9 ∷ []) x
    × EncryptsAndDecryptsLineAfterPeerKeyExchange toy (3 ∷ []) (4 ∷ []) (9 ∷ []) x
    × KeepsReplayProtectionAfterDuplicatePeerKey toy (3 ∷ []) (4 ∷ []) (9 ∷ []) x
unfolding toy Session.new generate encrypt decrypt next_nonce cipher_for associated_data_for
    open_envelope accepts_epoch mark_inbound mark_seen session_info nonce_prefix str_le Maps.get
    Maps.insert ClientId-discrete NonceBytes-discrete PublicKeyBytes-discrete ℕ_discrete
    bytes_discrete to_be_bytes with_session encrypt_payload encrypt_line count_outbound handle_event
    handle_encrypted_message on_payload send_reply accept_peer_key decrypt_payload
    Rekey.encrypt_payload CryptoState.new BuildsHelloAndPeerKeyWithoutPlaintext
    EncryptsAndDecryptsLineAfterPeerKeyExchange KeepsReplayProtectionAfterDuplicatePeerKey
lines_pass = ((refl, refl), (refl, (refl, refl)), refl)

rekeys_pass :
    CompletesRekeyHandshakeFromInboundRequestAndReplies toy (3 ∷ []) (4 ∷ []) (9 ∷ []) x
    × AppendsRekeyRequestAfterThresholdOutboundMessages toy (3 ∷ []) (4 ∷ []) (9 ∷ []) x
    × SkipsAutoRekeyWhileHandshakeIsInProgress toy (3 ∷ []) (4 ∷ []) (9 ∷ []) x
unfolding toy Session.new generate encrypt decrypt next_nonce cipher_for associated_data_for
    open_envelope accepts_epoch mark_inbound mark_seen session_info nonce_prefix str_le Maps.get
    Maps.insert ClientId-discrete NonceBytes-discrete PublicKeyBytes-discrete ℕ_discrete
    bytes_discrete to_be_bytes with_session encrypt_payload encrypt_line count_outbound handle_event
    handle_encrypted_message on_payload send_reply accept_peer_key decrypt_payload
    Rekey.encrypt_payload CryptoState.new CompletesRekeyHandshakeFromInboundRequestAndReplies
    AppendsRekeyRequestAfterThresholdOutboundMessages SkipsAutoRekeyWhileHandshakeIsInProgress
    start_rekey Rekey.start_rekey handle_session_payload commit_staged_rekey apply_next_master
    RekeyId-discrete Maps.retain
rekeys_pass =
    ((refl, (refl, (refl, refl))), (refl, refl, (refl, (refl, (refl, refl)))), (refl, refl))

keys_pass :
    ReportsReadyAfterPeerKeyExchange toy (3 ∷ []) (4 ∷ []) (9 ∷ []) x
    × RejectsChangedPeerKeyAfterSessionReady toy (3 ∷ []) (4 ∷ []) (9 ∷ []) x
    × ReportsReceivedPeerFingerprintForDisplay toy (3 ∷ []) (4 ∷ []) (9 ∷ []) x
    × ((lower : ℕ → List ℕ)
        → AcceptsPeerKeyMatchingExpectedFingerprint toy (3 ∷ []) (4 ∷ []) (9 ∷ []) x lower)
    × ((lower : ℕ → List ℕ)
        → RejectsMismatchedFingerprintAndStaysUnready toy (3 ∷ []) (4 ∷ []) (9 ∷ []) x lower)
unfolding toy Session.new generate encrypt decrypt next_nonce cipher_for associated_data_for
    open_envelope accepts_epoch mark_inbound mark_seen session_info nonce_prefix str_le Maps.get
    Maps.insert ClientId-discrete NonceBytes-discrete PublicKeyBytes-discrete ℕ_discrete
    bytes_discrete to_be_bytes with_session encrypt_payload encrypt_line count_outbound handle_event
    handle_encrypted_message on_payload send_reply accept_peer_key decrypt_payload
    Rekey.encrypt_payload CryptoState.new ReportsReadyAfterPeerKeyExchange
    RejectsChangedPeerKeyAfterSessionReady ReportsReceivedPeerFingerprintForDisplay
    AcceptsPeerKeyMatchingExpectedFingerprint RejectsMismatchedFingerprintAndStaysUnready
    peer_fingerprint expect_peer_fingerprint fingerprint hex to_lowercase trim is_whitespace
    trim_start
keys_pass = ((refl, refl), refl, (refl, refl), λ lower. refl, λ lower. (refl, refl, tt))
