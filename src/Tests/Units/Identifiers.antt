-- ===== src/Tests/Units/Identifiers.antt =====
-- The unit tests of crates/chat-core/src/types.rs on identifiers, of nonce.rs, and of service.rs; and
-- the one of event.rs on identifiers.
use e2e_chat_rs.Prelude.{
  ◌≡◌, refl, [], ◌∷◌, Bool, true, ok, err, text, replicate, Result, all, false,
}
use e2e_chat_rs.ChatCore.Types.{
  NonceBytes, NonceBytes-discrete, parse, is_allowed_client_id_char, empty_client_id,
  client_id_too_long, client_id_invalid_character,
}
use e2e_chat_rs.ChatCore.Nonce.{mark_seen, duplicate_nonce}
use e2e_chat_rs.ChatCore.Nonce
use e2e_chat_rs.ChatCore.Event.{RelayErrorCode}
use e2e_chat_rs.ChatCore.Service.{RouterError, AuthError, router_error_code, auth_error_code}
use e2e_chat_rs.ChatCore.Event
use e2e_chat_rs.ChatCore.Service

abbrev is_ok : {A E : Type 0} → Result A E → Bool
is_ok (ok a) = true
is_ok (err e) = false

AcceptsAlphanumericAndSeparatorIds : Type 0
AcceptsAlphanumericAndSeparatorIds =
    all (λ id. is_ok (parse id))
      (text "a"
        ∷ text "alice"
        ∷ text "user-1"
        ∷ text "user_2"
        ∷ text "user.3"
        ∷ text "A1_b2.c3"
        ∷ [])
    ≡ true

RejectsEmptyClientId : Type 0
RejectsEmptyClientId = parse [] ≡ err empty_client_id

RejectsIdsWithWhitespaceInsteadOfTrimming : Type 0
RejectsIdsWithWhitespaceInsteadOfTrimming =
    (parse (text " alice") ≡ err client_id_invalid_character)
    × (parse (text "alice ") ≡ err client_id_invalid_character)
    × (parse (text "a lice") ≡ err client_id_invalid_character)

-- A line feed, a delete, and the three syllables of a Korean name.
RejectsControlAndNonAsciiCharacters : Type 0
RejectsControlAndNonAsciiCharacters =
    (parse (97 ∷ 108 ∷ 105 ∷ 99 ∷ 101 ∷ 10 ∷ []) ≡ err client_id_invalid_character)
    × (parse (0x7f ∷ []) ≡ err client_id_invalid_character)
    × (parse (0xc568 ∷ 0xb9ac ∷ 0xc2a4 ∷ []) ≡ err client_id_invalid_character)

RejectsClientIdLongerThanLimit : Type 0
RejectsClientIdLongerThanLimit =
    (is_ok (parse (replicate 64 97)) ≡ true) × (parse (replicate 65 97) ≡ err client_id_too_long)

RejectsBlankClientId : Type 0
RejectsBlankClientId = parse (text " ") ≡ err client_id_invalid_character

RejectsDuplicateNonce : Type 0
RejectsDuplicateNonce =
    let nonce : NonceBytes = record { bytes = replicate 24 6 } in
    let marked = mark_seen Nonce.default nonce in
    (marked.0 ≡ ok tt) × ((mark_seen marked.1 nonce).0 ≡ err duplicate_nonce)

MapsRouterErrorsToWireCodes : Type 0
MapsRouterErrorsToWireCodes =
    (router_error_code Service.sender_mismatch ≡ Event.sender_mismatch)
    × (router_error_code Service.unknown_recipient ≡ Event.unknown_recipient)
    × (router_error_code Service.unsupported_event ≡ Event.unsupported_event)
    × (router_error_code Service.client_not_connected ≡ Event.client_not_connected)
    × (router_error_code Service.client_already_connected ≡ Event.client_already_connected)

MapsAuthDenialToConnectDeniedCode : Type 0
MapsAuthDenialToConnectDeniedCode = auth_error_code Service.connect_denied ≡ Event.connect_denied

passes :
    AcceptsAlphanumericAndSeparatorIds × RejectsEmptyClientId
    × RejectsIdsWithWhitespaceInsteadOfTrimming × RejectsControlAndNonAsciiCharacters
    × RejectsClientIdLongerThanLimit × RejectsBlankClientId × RejectsDuplicateNonce
    × MapsRouterErrorsToWireCodes × MapsAuthDenialToConnectDeniedCode
unfolding AcceptsAlphanumericAndSeparatorIds RejectsEmptyClientId
    RejectsIdsWithWhitespaceInsteadOfTrimming RejectsControlAndNonAsciiCharacters
    RejectsClientIdLongerThanLimit RejectsBlankClientId RejectsDuplicateNonce
    MapsRouterErrorsToWireCodes MapsAuthDenialToConnectDeniedCode parse is_allowed_client_id_char
    mark_seen NonceBytes-discrete router_error_code auth_error_code
passes = (
  refl,
  refl,
  (refl, refl, refl),
  (refl, refl, refl),
  (refl, refl),
  refl,
  (refl, refl),
  (refl, refl, refl, refl, refl),
  refl,
)
