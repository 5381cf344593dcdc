-- ===== src/ChatCore/Types/Wire.antt =====
-- The serde forms of the byte types of types.rs: a base64 string. A serializer is the string that
-- it is given, a deserializer the string that it holds, or none if it holds something else.
use e2e_chat_rs.Prelude.{
  ℕ, ◌≡◌, ◌↔◌, Option, some, none, List, Result, ok, err, length, ◌==◌, ℕ_eq, if◌then◌else◌, arith,
}
use e2e_chat_rs.ChatCore.Types.{PublicKeyBytes, NonceBytes, Ciphertext, RekeyId}

-- `base64::engine::general_purpose::STANDARD`
pub record Base64 : Type 0 where
  pub encode : List ℕ → List ℕ
  pub decode : List ℕ → Option (List ℕ)

-- The standard engine reads what it writes, and nothing else: it wants canonical padding.
pub record IsStandard (base64 : Base64) : Type 0 where
  pub reads : (bytes : List ℕ) → base64.decode (base64.encode bytes) ≡ some bytes
  pub canonical :
      (encoded bytes : List ℕ) → base64.decode encoded ≡ some bytes → base64.encode bytes ≡ encoded

pub data WireError : Type 0 where
  not_a_string invalid_base64 wrong_length : WireError

module _ (base64 : Base64) where
  unfoldable pub serialize_bytes_as_base64 : List ℕ → List ℕ
  serialize_bytes_as_base64 bytes = base64.encode bytes

  unfoldable pub deserialize_bytes_from_base64 : Option (List ℕ) → Result (List ℕ) WireError
  deserialize_bytes_from_base64 none = err not_a_string
  deserialize_bytes_from_base64 (some encoded) = elim (base64.decode encoded) [
    | none ↦ err invalid_base64
    | some bytes ↦ ok bytes
  ]

  -- `bytes.try_into()`, for an array of `size` bytes, and the constructor `wrap` around it
  unfoldable pub deserialize_array :
      {T : Type 0} → (List ℕ → T) → (size : ℕ) → Option (List ℕ) → Result T WireError
  unfolding deserialize_bytes_from_base64
  deserialize_array wrap size d = elim (deserialize_bytes_from_base64 d) [
    | err e ↦ err e
    | ok bytes ↦ if length bytes == size then ok (wrap bytes) else err wrong_length
  ]

  abbrev pub serialize_public_key : PublicKeyBytes → List ℕ
  serialize_public_key key = serialize_bytes_as_base64 key.bytes

  abbrev pub deserialize_public_key : Option (List ℕ) → Result PublicKeyBytes WireError
  deserialize_public_key d = deserialize_array (λ bytes. record { bytes = bytes }) 32 d

  abbrev pub serialize_nonce : NonceBytes → List ℕ
  serialize_nonce nonce = serialize_bytes_as_base64 nonce.bytes

  abbrev pub deserialize_nonce : Option (List ℕ) → Result NonceBytes WireError
  deserialize_nonce d = deserialize_array (λ bytes. record { bytes = bytes }) 24 d

  abbrev pub serialize_ciphertext : Ciphertext → List ℕ
  serialize_ciphertext ciphertext = serialize_bytes_as_base64 ciphertext.bytes

  abbrev pub deserialize_ciphertext : Option (List ℕ) → Result Ciphertext WireError
  deserialize_ciphertext d = elim (deserialize_bytes_from_base64 d) [
    | err e ↦ err e
    | ok bytes ↦ ok (record { bytes = bytes })
  ]

  abbrev pub serialize_rekey_id : RekeyId → List ℕ
  serialize_rekey_id id = serialize_bytes_as_base64 id.bytes

  abbrev pub deserialize_rekey_id : Option (List ℕ) → Result RekeyId WireError
  deserialize_rekey_id d = deserialize_array (λ bytes. record { bytes = bytes }) 16 d

  module _ (law : IsStandard base64) where
    deserialize_bytes_iff :
        (d : Option (List ℕ)) (bytes : List ℕ)
        → (deserialize_bytes_from_base64 d ≡ ok bytes)
          ↔ (d ≡ some (serialize_bytes_as_base64 bytes))
    unfolding deserialize_bytes_from_base64 serialize_bytes_as_base64
    deserialize_bytes_iff none bytes = (λ h. ground arith, λ h. ground arith)
    deserialize_bytes_iff (some encoded) bytes =
        (λ h. ground (arith, law.canonical encoded bytes), λ h. ground (arith, law.reads bytes))

    -- A public key, a nonce and a rekey id are read from a wire value exactly when it is the
    -- string that they are written as and they have 32, 24 or 16 bytes; a ciphertext exactly when
    -- it is the string that it is written as. The base64 engine reads what it writes, and nothing
    -- else.
    pub deserialize_iff :
        (d : Option (List ℕ))
        → ((key : PublicKeyBytes)
            → (deserialize_public_key d ≡ ok key)
              ↔ ((d ≡ some (serialize_public_key key)) × (length key.bytes ≡ 32)))
          × ((nonce : NonceBytes)
              → (deserialize_nonce d ≡ ok nonce)
                ↔ ((d ≡ some (serialize_nonce nonce)) × (length nonce.bytes ≡ 24)))
          × ((id : RekeyId)
              → (deserialize_rekey_id d ≡ ok id)
                ↔ ((d ≡ some (serialize_rekey_id id)) × (length id.bytes ≡ 16)))
          × ((ciphertext : Ciphertext)
              → (deserialize_ciphertext d ≡ ok ciphertext)
                ↔ (d ≡ some (serialize_ciphertext ciphertext)))
    unfolding deserialize_array
    deserialize_iff d = (
      λ key. (
        λ h. ground (arith, deserialize_bytes_iff d key.bytes),
        λ h. ground (arith, deserialize_bytes_iff d key.bytes),
      ),
      λ nonce. (
        λ h. ground (arith, deserialize_bytes_iff d nonce.bytes),
        λ h. ground (arith, deserialize_bytes_iff d nonce.bytes),
      ),
      λ id. (
        λ h. ground (arith, deserialize_bytes_iff d id.bytes),
        λ h. ground (arith, deserialize_bytes_iff d id.bytes),
      ),
      λ c. (
        λ h. ground (arith, deserialize_bytes_iff d c.bytes),
        λ h. ground (arith, deserialize_bytes_iff d c.bytes),
      ),
    )
