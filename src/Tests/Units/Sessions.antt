-- ===== src/Tests/Units/Sessions.antt =====
-- Unit tests of crates/chat-core/src/crypto.rs on sessions, over any libraries and key pairs, and
-- at the stand-ins.
use e2e_chat_rs.Prelude.{
  ◌≡◌, refl, ℕ_discrete, leb, [], ◌∷◌, none, some, ok, err, text, Result, length, replicate, ℕ_eq,
}
use e2e_chat_rs.Prelude.{ok_or}
use e2e_chat_rs.Prelude.Words.{add_u32, to_be_bytes}
use e2e_chat_rs.Prelude.Maps
use e2e_chat_rs.ChatCore.Types.{
  ClientId, ClientId-discrete, NonceBytes-discrete, RekeyId, RekeyId-discrete,
}
use e2e_chat_rs.ChatCore.Nonce.{mark_seen}
use e2e_chat_rs.ChatCore.Event.{chat, rekey_response, SessionPayload}
use e2e_chat_rs.ChatCore.Crypto.Primitives.{Bytes, Primitives}
use e2e_chat_rs.ChatCore.Crypto.Info.{session_info, nonce_prefix, str_le}
use e2e_chat_rs.ChatCore.Crypto.Session.{
  KeyPair, CryptoSession, generate, new, authentication_failed, unexpected_peer, unknown_epoch,
  unknown_rekey_id, rekey_already_in_progress, duplicate_nonce,
}
use e2e_chat_rs.ChatCore.Crypto.Cipher.{
  encrypt, decrypt, next_nonce, cipher_for, associated_data_for, open_envelope, accepts_epoch,
  mark_inbound,
}
use e2e_chat_rs.ChatCore.Crypto.Rekey.{
  start_rekey, handle_session_payload, commit_staged_rekey, encrypt_payload, decrypt_payload,
  apply_next_master,
}
use e2e_chat_rs.Tests.Core.{alice, bob, message, first_rekey}
use e2e_chat_rs.Tests.Units.Router.{mallory}
use e2e_chat_rs.Tests.Toy.{toy}

-- `expect`: the result is a value, and the test goes on with it.
abbrev pub Expect : {A E : Type 0} → Result A E → (A → Type 0) → Type 0
Expect (ok a) k = k a
Expect (err e) k = ⊥

abbrev test_session : Primitives → KeyPair → KeyPair → ClientId → ClientId → CryptoSession
test_session prim local peer local_id peer_id = new prim local peer.public_key local_id peer_id

module _ (prim : Primitives) (a b : KeyPair) where
  abbrev alice_session : CryptoSession
  alice_session = test_session prim a b alice bob

  abbrev bob_session : CryptoSession
  bob_session = test_session prim b a bob alice

  DecryptsMessageForMatchingPair : Type 0
  DecryptsMessageForMatchingPair =
      Expect (encrypt prim (message 1) (text "hello bob") alice_session).0
        (λ encrypted. (decrypt prim encrypted bob_session).0 ≡ ok (text "hello bob"))

  RejectsTamperedCiphertext : Type 0
  RejectsTamperedCiphertext =
      Expect (encrypt prim (message 1) (text "hello") alice_session).0 (λ encrypted.
        (decrypt prim
          (record encrypted {
            ciphertext = record { bytes = replicate (length encrypted.ciphertext.bytes) 0 };
          })
          bob_session).0
        ≡ err authentication_failed)

  RejectsTamperedMessageId : Type 0
  RejectsTamperedMessageId =
      Expect (encrypt prim (message 1) (text "hello") alice_session).0 (λ encrypted.
        (decrypt prim (record encrypted { message_id = message 2 }) bob_session).0
        ≡ err authentication_failed)

  RejectsWrongPeerKey : KeyPair → Type 0
  RejectsWrongPeerKey m =
      Expect (encrypt prim (message 1) (text "hello") alice_session).0 (λ encrypted.
        (decrypt prim encrypted (test_session prim b m bob alice)).0 ≡ err authentication_failed)

  RejectsTamperedMetadata : Type 0
  RejectsTamperedMetadata =
      Expect (encrypt prim (message 1) (text "hello") alice_session).0 (λ encrypted.
        (decrypt prim (record encrypted { sender = mallory }) bob_session).0 ≡ err unexpected_peer)

  RejectsReplayedInboundNonce : Type 0
  RejectsReplayedInboundNonce =
      Expect (encrypt prim (message 1) (text "hello") alice_session).0 (λ encrypted.
        let first = decrypt prim encrypted bob_session in
        Expect first.0 (λ _. (decrypt prim encrypted first.1).0 ≡ err duplicate_nonce))

  RoundtripsSessionPayloadThroughEncryption : Type 0
  RoundtripsSessionPayloadThroughEncryption =
      Expect (encrypt_payload prim (message 1) (chat (text "hello")) alice_session).0
        (λ envelope. (decrypt_payload prim envelope bob_session).0 ≡ ok (chat (text "hello")))

  RejectsRekeyResponseWithUnknownRekeyId : Bytes → RekeyId → Bytes → Type 0
  RejectsRekeyResponseWithUnknownRekeyId secret forged_id drawn =
      let started = start_rekey prim first_rekey secret alice_session in
      let handled =
        handle_session_payload prim (rekey_response forged_id b.public_key) drawn started.1 in
      Expect started.0 (λ _. (handled.0 ≡ err unknown_rekey_id) × (handled.1.epoch ≡ 0))

  RejectsRekeyRequestWhileHandshakeInProgress : Bytes → RekeyId → Bytes → Type 0
  RejectsRekeyRequestWhileHandshakeInProgress secret id drawn =
      let started = start_rekey prim first_rekey secret alice_session in
      let again = start_rekey prim id drawn started.1 in
      Expect started.0 (λ _.
        (again.0 ≡ err rekey_already_in_progress)
        × Expect (start_rekey prim id secret bob_session).0 (λ bob_request.
          let handled = handle_session_payload prim bob_request drawn again.1 in
          (handled.0 ≡ err rekey_already_in_progress) × (handled.1.epoch ≡ 0)))

abbrev parse_payload : Primitives → Bytes → Result SessionPayload (Unit {0})
parse_payload prim bytes = ok_or (prim.payload_from_slice bytes) tt

-- `bump_epoch_for_test`, which leaves the master as it is.
abbrev bump_epoch_for_test : CryptoSession → CryptoSession
bump_epoch_for_test s =
    let epoch = add_u32 s.epoch 1 in
    record s {
      epoch = epoch;
      inbound_nonces =
          Maps.retain s.inbound_nonces (λ generation. leb epoch (add_u32 generation 1));
    }

module _ (prim : Primitives) (a b : KeyPair) where
  BindsEpochIntoAssociatedData : Type 0
  BindsEpochIntoAssociatedData =
      let sent = encrypt prim (message 1) (text "hi") (test_session prim a b alice bob) in
      Expect sent.0 (λ envelope.
        let bumped = bump_epoch_for_test (test_session prim b a bob alice) in
        let previous = decrypt prim envelope bumped in
        (envelope.epoch ≡ 0)
        × Expect previous.0 (λ _.
          (decrypt prim (record envelope { epoch = add_u32 envelope.epoch 1 }) previous.1).0
          ≡ err authentication_failed))

  AcceptsPreviousEpochOnlyDuringTransition : Type 0
  AcceptsPreviousEpochOnlyDuringTransition =
      let old = encrypt prim (message 1) (text "old") (test_session prim a b alice bob) in
      Expect old.0 (λ old_envelope.
        let new' = encrypt prim (message 2) (text "new") (bump_epoch_for_test old.1) in
        Expect new'.0 (λ new_envelope.
          let bumped = bump_epoch_for_test (test_session prim b a bob alice) in
          let current = decrypt prim new_envelope bumped in
          let previous = decrypt prim old_envelope current.1 in
          (new_envelope.epoch ≡ add_u32 old_envelope.epoch 1)
          × Expect current.0 (λ _. Expect previous.0 (λ _.
            (decrypt prim (record new_envelope { epoch = add_u32 new_envelope.epoch 2 })
              previous.1).0
            ≡ err unknown_epoch))))

  CompletesRekeyHandshakeAndAdvancesBothEpochs : Bytes → Bytes → Type 0
  CompletesRekeyHandshakeAndAdvancesBothEpochs secret drawn =
      let started = start_rekey prim first_rekey secret (test_session prim a b alice bob) in
      Expect started.0 (λ request_payload.
        let asked = encrypt_payload prim (message 1) request_payload started.1 in
        Expect asked.0 (λ request_envelope.
          let opened = decrypt prim request_envelope (test_session prim b a bob alice) in
          Expect opened.0 (λ request_bytes. Expect (parse_payload prim request_bytes) (λ request.
            let handled = handle_session_payload prim request drawn opened.1 in
            Expect handled.0 (λ reply. elim reply [
              | none ↦ ⊥
              | some reply_payload ↦
                  let replied = encrypt_payload prim (message 2) reply_payload handled.1 in
                  (handled.1.epoch ≡ 0)
                  × Expect replied.0 (λ reply_envelope.
                    let committed = commit_staged_rekey replied.1 in
                    let returned = decrypt prim reply_envelope asked.1 in
                    Expect committed.0 (λ _.
                      (committed.1.epoch ≡ 1)
                      × Expect returned.0 (λ reply_bytes.
                        Expect (parse_payload prim reply_bytes) (λ response.
                          let done = handle_session_payload prim response drawn returned.1 in
                          Expect done.0 (λ _.
                            let fresh = encrypt prim (message 3) (text "fresh epoch") done.1 in
                            (done.1.epoch ≡ 1)
                            × Expect fresh.0 (λ after_rekey.
                              (after_rekey.epoch ≡ 1)
                              × ((decrypt prim after_rekey committed.1).0
                                  ≡ ok (text "fresh epoch"))))))))
            ])))))

abbrev pub a : KeyPair
a = generate toy (3 ∷ [])

abbrev pub b : KeyPair
b = generate toy (4 ∷ [])

messages_pass :
    DecryptsMessageForMatchingPair toy a b
    × RejectsTamperedCiphertext toy a b
    × RejectsTamperedMessageId toy a b
    × RejectsWrongPeerKey toy a b (generate toy (9 ∷ []))
    × RejectsTamperedMetadata toy a b
    × RejectsReplayedInboundNonce toy a b
    × RoundtripsSessionPayloadThroughEncryption toy a b
unfolding toy new generate encrypt decrypt next_nonce cipher_for associated_data_for open_envelope
    accepts_epoch mark_inbound mark_seen session_info nonce_prefix str_le Maps.get Maps.insert
    ClientId-discrete NonceBytes-discrete ℕ_discrete to_be_bytes DecryptsMessageForMatchingPair
    RejectsTamperedCiphertext RejectsTamperedMessageId RejectsWrongPeerKey RejectsTamperedMetadata
    RejectsReplayedInboundNonce RoundtripsSessionPayloadThroughEncryption encrypt_payload
    decrypt_payload
messages_pass = (refl, refl, refl, refl, refl, refl, refl)

handshake_passes :
    RejectsRekeyResponseWithUnknownRekeyId toy a b (5 ∷ []) (record { bytes = 1 ∷ [] }) (6 ∷ [])
    × RejectsRekeyRequestWhileHandshakeInProgress toy a b
        (5 ∷ [])
        (record { bytes = 1 ∷ [] })
        (6 ∷ [])
    × CompletesRekeyHandshakeAndAdvancesBothEpochs toy a b (5 ∷ []) (6 ∷ [])
unfolding toy new generate encrypt decrypt next_nonce cipher_for associated_data_for open_envelope
    accepts_epoch mark_inbound mark_seen session_info nonce_prefix str_le Maps.get Maps.insert
    ClientId-discrete NonceBytes-discrete ℕ_discrete to_be_bytes
    RejectsRekeyResponseWithUnknownRekeyId RejectsRekeyRequestWhileHandshakeInProgress
    CompletesRekeyHandshakeAndAdvancesBothEpochs encrypt_payload decrypt_payload start_rekey
    handle_session_payload commit_staged_rekey RekeyId-discrete apply_next_master Maps.retain
handshake_passes = ((refl, refl), (refl, (refl, refl)), (refl, (refl, (refl, (refl, refl)))))

epochs_pass :
    BindsEpochIntoAssociatedData toy a b × AcceptsPreviousEpochOnlyDuringTransition toy a b
unfolding toy new generate encrypt decrypt next_nonce cipher_for associated_data_for open_envelope
    accepts_epoch mark_inbound mark_seen session_info nonce_prefix str_le Maps.get Maps.insert
    ClientId-discrete NonceBytes-discrete ℕ_discrete to_be_bytes BindsEpochIntoAssociatedData
    AcceptsPreviousEpochOnlyDuringTransition Maps.retain
epochs_pass = ((refl, refl), (refl, refl))
