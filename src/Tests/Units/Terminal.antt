-- ===== src/Tests/Units/Terminal.antt =====
-- The unit tests of crates/chat-client/src/main.rs, but for those of the command line.
use e2e_chat_rs.Prelude.{
  ℕ_discrete, ◌≡◌, refl, ℕ, List, [], ◌∷◌, ◌++◌, true, false, some, ok, err, text, replicate,
}
use e2e_chat_rs.ChatCore.Event.{ack, error, other, peer_key, WireEvent}
use e2e_chat_rs.ChatCore.Event
use e2e_chat_rs.ChatClient.Texts.{to_lowercase, trim, is_whitespace, trim_start}
use e2e_chat_rs.ChatClient.Main.{
  normalize_fingerprint, fingerprint_invalid, control_status, should_retry_peer_key,
  needs_peer_key_reply,
}
use e2e_chat_rs.Tests.Core.{alice, bob, message}

NormalizesFingerprintCaseAndWhitespace : Type 0
NormalizesFingerprintCaseAndWhitespace =
    (lower : ℕ → List ℕ)
    → normalize_fingerprint lower (text "  " ++ (replicate 64 b'A' ++ 10 ∷ []))
      ≡ ok (replicate 64 b'a')

RejectsFingerprintWithInvalidLengthOrCharacters : Type 0
RejectsFingerprintWithInvalidLengthOrCharacters =
    (lower : ℕ → List ℕ)
    → (normalize_fingerprint lower (text "abcd") ≡ err fingerprint_invalid)
      × (normalize_fingerprint lower (replicate 64 b'g') ≡ err fingerprint_invalid)

DescribesAckAsRelayDeliveryStatus : Type 0
DescribesAckAsRelayDeliveryStatus =
    control_status (ack (message 1)) ≡ some (text "message delivered to relay")

RetriesPeerKeyOnlyWhileSessionIsNotReady : Type 0
RetriesPeerKeyOnlyWhileSessionIsNotReady =
    (should_retry_peer_key false ≡ true) × (should_retry_peer_key true ≡ false)

abbrev bobs_key : WireEvent
bobs_key = peer_key bob alice (record { bytes = replicate 32 3 })

RepliesWithOwnPeerKeyToFirstInboundPeerKey : Type 0
RepliesWithOwnPeerKeyToFirstInboundPeerKey =
    (needs_peer_key_reply false bobs_key ≡ true)
    × (needs_peer_key_reply true bobs_key ≡ false)
    × (needs_peer_key_reply false (ack (message 1)) ≡ false)

DescribesRelayErrorStatus : Type 0
DescribesRelayErrorStatus =
    control_status (error Event.unknown_recipient (text "event routing failed"))
    ≡ some (text "relay error: event routing failed")

DescribesRelayErrorWithUnknownCodeFromNewerPeer : Type 0
DescribesRelayErrorWithUnknownCodeFromNewerPeer =
    control_status (error (other (text "rekey_required")) (text "rekey needed"))
    ≡ some (text "relay error: rekey needed")

passes :
    NormalizesFingerprintCaseAndWhitespace × RejectsFingerprintWithInvalidLengthOrCharacters
    × DescribesAckAsRelayDeliveryStatus × RetriesPeerKeyOnlyWhileSessionIsNotReady
    × RepliesWithOwnPeerKeyToFirstInboundPeerKey × DescribesRelayErrorStatus
    × DescribesRelayErrorWithUnknownCodeFromNewerPeer
unfolding NormalizesFingerprintCaseAndWhitespace RejectsFingerprintWithInvalidLengthOrCharacters
    DescribesAckAsRelayDeliveryStatus RetriesPeerKeyOnlyWhileSessionIsNotReady
    RepliesWithOwnPeerKeyToFirstInboundPeerKey DescribesRelayErrorStatus
    DescribesRelayErrorWithUnknownCodeFromNewerPeer normalize_fingerprint control_status
    needs_peer_key_reply to_lowercase trim is_whitespace trim_start ℕ_discrete
passes = (λ lower. refl, λ lower. (refl, refl), refl, (refl, refl), (refl, refl, refl), refl, refl)
