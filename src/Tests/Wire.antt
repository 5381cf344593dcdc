-- ===== src/Tests/Wire.antt =====
-- The theorems on identifiers and wire forms at concrete texts.
use e2e_chat_rs.ChatCore.Types.Wire.{
  Base64, IsStandard, deserialize_iff, deserialize_public_key, serialize_public_key,
  deserialize_nonce, serialize_nonce, deserialize_rekey_id, serialize_rekey_id,
  deserialize_ciphertext, serialize_ciphertext,
}
use e2e_chat_rs.ChatCore.Types.Parsing.{IsWellFormed, parse_iff}
use e2e_chat_rs.ChatCore.Event.Codes.{
  IsCanonical, deserialize_error_code, serialize_error_code, deserialize_error_code_iff,
}
use e2e_chat_rs.Prelude.{refl, ℕ, ◌≡◌, List, ok, text, ◌↔◌, some, sym, replicate, Option, length}
use e2e_chat_rs.ChatCore.Types.{RekeyId, parse, PublicKeyBytes, NonceBytes, Ciphertext}
use e2e_chat_rs.ChatCore.Event.{other}
use mathlib.Core.Option.{some-injective}
use e2e_chat_rs.Tests.Core.{alice}

parse_iff_example :
    (parse (text "alice") ≡ ok alice)
    ↔ ((alice ≡ record { value = text "alice" }) × IsWellFormed alice)
parse_iff_example = parse_iff (text "alice") alice

deserialize_error_code_iff_example :
    (deserialize_error_code (some (text "rate_limited")) ≡ ok (other (text "rate_limited"))) ↔ (
      (some (text "rate_limited") ≡ some (serialize_error_code (other (text "rate_limited"))))
      × IsCanonical (other (text "rate_limited")))
deserialize_error_code_iff_example =
    deserialize_error_code_iff (some (text "rate_limited")) (other (text "rate_limited"))

-- A stand-in for base64 that writes bytes as they are.
abbrev pub plain_text : Base64
plain_text = record { encode = λ bytes. bytes; decode = λ encoded. some encoded }

plain_text-IsStandard : IsStandard plain_text
plain_text-IsStandard = record {
  reads = λ bytes. refl;
  canonical = λ encoded bytes h. sym (some-injective _ _ h);
}

abbrev wire_value : Option (List ℕ)
wire_value = some (replicate 16 3)

deserialize_iff_example :
    ((key : PublicKeyBytes)
      → (deserialize_public_key plain_text wire_value ≡ ok key)
        ↔ ((wire_value ≡ some (serialize_public_key plain_text key)) × (length key.bytes ≡ 32)))
    × ((nonce : NonceBytes)
        → (deserialize_nonce plain_text wire_value ≡ ok nonce)
          ↔ ((wire_value ≡ some (serialize_nonce plain_text nonce)) × (length nonce.bytes ≡ 24)))
    × ((id : RekeyId)
        → (deserialize_rekey_id plain_text wire_value ≡ ok id)
          ↔ ((wire_value ≡ some (serialize_rekey_id plain_text id)) × (length id.bytes ≡ 16)))
    × ((ciphertext : Ciphertext)
        → (deserialize_ciphertext plain_text wire_value ≡ ok ciphertext)
          ↔ (wire_value ≡ some (serialize_ciphertext plain_text ciphertext)))
deserialize_iff_example = deserialize_iff plain_text plain_text-IsStandard wire_value
