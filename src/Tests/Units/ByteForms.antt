-- ===== src/Tests/Units/ByteForms.antt =====
-- The unit tests of crates/chat-core/src/types.rs on the wire forms of the byte types, at stand-ins for
-- base64. A wire value is the string that it holds.
use e2e_chat_rs.Prelude.{
  ℕ, ◌≡◌, refl, [], ◌∷◌, none, some, ok, err, text, replicate, contains, false, all, leb,
  if◌then◌else◌, ℕ_eq, ℕ_discrete,
}
use e2e_chat_rs.ChatCore.Types.{NonceBytes, Ciphertext}
use e2e_chat_rs.ChatCore.Types.Wire.{
  Base64, serialize_bytes_as_base64, deserialize_bytes_from_base64, deserialize_array,
  serialize_public_key, deserialize_public_key, serialize_nonce, deserialize_nonce,
  serialize_ciphertext, deserialize_ciphertext, wrong_length, invalid_base64,
}
use e2e_chat_rs.Tests.Wire.{plain_text}

-- The bracket of a JSON array.
abbrev bracket : ℕ
bracket = 0x5b

SerializesPublicKeyAsBase64String : Type 0
SerializesPublicKeyAsBase64String =
    let encoded = serialize_public_key plain_text (record { bytes = replicate 32 7 }) in
    (encoded ≡ plain_text.encode (replicate 32 7)) × (contains encoded bracket ≡ false)

RoundtripsNonceThroughBase64 : Type 0
RoundtripsNonceThroughBase64 =
    let nonce : NonceBytes = record { bytes = replicate 24 9 } in
    deserialize_nonce plain_text (some (serialize_nonce plain_text nonce)) ≡ ok nonce

RoundtripsCiphertextThroughBase64 : Type 0
RoundtripsCiphertextThroughBase64 =
    let ciphertext : Ciphertext = record { bytes = 1 ∷ 2 ∷ 3 ∷ 4 ∷ 5 ∷ [] } in
    deserialize_ciphertext plain_text (some (serialize_ciphertext plain_text ciphertext))
    ≡ ok ciphertext

RejectsPublicKeyWithWrongDecodedLength : Type 0
RejectsPublicKeyWithWrongDecodedLength =
    deserialize_public_key plain_text (some (text "AAAA")) ≡ err wrong_length

-- An engine that refuses a text with a character below the digits.
abbrev refusing : Base64
refusing = record {
  encode = λ bytes. bytes;
  decode = λ encoded. if all (λ c. leb b'0' c) encoded then some encoded else none;
}

RejectsInvalidBase64Payload : Type 0
RejectsInvalidBase64Payload =
    deserialize_ciphertext refusing (some (text "!!!not base64!!!")) ≡ err invalid_base64

forms_pass :
    SerializesPublicKeyAsBase64String × RoundtripsNonceThroughBase64
    × RoundtripsCiphertextThroughBase64 × RejectsPublicKeyWithWrongDecodedLength
    × RejectsInvalidBase64Payload
unfolding SerializesPublicKeyAsBase64String RoundtripsNonceThroughBase64
    RoundtripsCiphertextThroughBase64 RejectsPublicKeyWithWrongDecodedLength
    RejectsInvalidBase64Payload serialize_bytes_as_base64 deserialize_bytes_from_base64
    deserialize_array ℕ_discrete
forms_pass = ((refl, refl), refl, refl, refl, refl)
