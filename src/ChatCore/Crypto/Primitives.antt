-- ===== src/ChatCore/Crypto/Primitives.antt =====
-- The libraries that crypto.rs calls, as parameters: x25519-dalek, hkdf with sha2,
-- chacha20poly1305, blake3, and serde_json. Random draws (`OsRng`, `Uuid::new_v4`) are arguments
-- of the operations that make them.
use e2e_chat_rs.Prelude.{ℕ, ◌≡◌, ◌≤◌, Bool, true, Option, some, List, length}
use e2e_chat_rs.ChatCore.Types.{ClientId, MessageId}
use e2e_chat_rs.ChatCore.Event.{SessionPayload}

abbrev pub Bytes : Type 0
Bytes = List ℕ

-- `AssociatedData`
pub record AssociatedData : Type 0 where
  pub version : ℕ
  pub sender : ClientId
  pub recipient : ClientId
  pub message_id : MessageId
  pub epoch : ℕ

pub record Primitives : Type 0 where
  -- `PublicKey::from(&secret).to_bytes()`
  pub x25519_public : Bytes → Bytes
  -- `secret.diffie_hellman(&public)`
  pub x25519 : (secret public : Bytes) → Bytes
  -- `Hkdf::<Sha256>::new(Some(salt), ikm).expand(info, &mut out)`, for `out` of `size` bytes
  pub hkdf : (salt ikm info : Bytes) (size : ℕ) → Option Bytes
  -- whether `XChaCha20Poly1305::new_from_slice(key)` succeeds
  pub aead_accepts_key : Bytes → Bool
  pub aead_encrypt : (key nonce message aad : Bytes) → Option Bytes
  pub aead_decrypt : (key nonce ciphertext aad : Bytes) → Option Bytes
  pub sha256 : Bytes → Bytes
  pub blake3 : Bytes → Bytes
  -- `serde_json::to_vec` and `from_slice` at `SessionPayload`, `to_vec` at `AssociatedData`
  pub payload_to_vec : SessionPayload → Option Bytes
  pub payload_from_slice : Bytes → Option SessionPayload
  pub associated_data_to_vec : AssociatedData → Option Bytes

-- Both ends of a Diffie-Hellman exchange compute one secret.
abbrev pub DhAgrees : Primitives → Type 0
DhAgrees p = (a b : Bytes) → p.x25519 a (p.x25519_public b) ≡ p.x25519 b (p.x25519_public a)

-- Decryption undoes encryption.
abbrev pub AeadRoundTrips : Primitives → Type 0
AeadRoundTrips p =
    (key nonce message aad ciphertext : Bytes)
    → p.aead_encrypt key nonce message aad ≡ some ciphertext
    → p.aead_decrypt key nonce ciphertext aad ≡ some message

-- A payload is read back from its JSON.
abbrev pub PayloadRoundTrips : Primitives → Type 0
PayloadRoundTrips p =
    (payload : SessionPayload) (bytes : Bytes)
    → p.payload_to_vec payload ≡ some bytes
    → p.payload_from_slice bytes ≡ some payload

-- What the code asks of the libraries never fails: an expansion to 32 bytes is far below the limit
-- of HKDF, 32 bytes are a key, and the JSON of these types has no failing case. A message has to
-- be short enough for the cipher.
pub record NeverFails (p : Primitives) (max_message : ℕ) : Type 0 where
  pub expands :
      (salt ikm info : Bytes)
      → (key : Bytes) × (p.hkdf salt ikm info 32 ≡ some key) × (p.aead_accepts_key key ≡ true)
  pub encrypts :
      (key nonce message aad : Bytes)
      → length message ≤ max_message
      → (ciphertext : Bytes) × (p.aead_encrypt key nonce message aad ≡ some ciphertext)
  pub payload :
      (payload : SessionPayload) → (bytes : Bytes) × (p.payload_to_vec payload ≡ some bytes)
  pub associated_data :
      (data' : AssociatedData) → (bytes : Bytes) × (p.associated_data_to_vec data' ≡ some bytes)

-- A ciphertext is authentic under one key, one nonce and one associated text only: the ideal form
-- of the authentication that the cipher promises.
abbrev pub AeadBinds : Primitives → Type 0
AeadBinds p =
    (key nonce message aad ciphertext key' nonce' message' aad' : Bytes)
    → p.aead_encrypt key nonce message aad ≡ some ciphertext
    → p.aead_decrypt key' nonce' ciphertext aad' ≡ some message'
    → (key ≡ key') × (nonce ≡ nonce') × (aad ≡ aad')

-- Different associated data have different JSON.
abbrev pub AssociatedDataInjective : Primitives → Type 0
AssociatedDataInjective p =
    (a b : AssociatedData) (bytes : Bytes)
    → p.associated_data_to_vec a ≡ some bytes
    → p.associated_data_to_vec b ≡ some bytes
    → a ≡ b

-- A derived key comes from one input key only: the form of the collision resistance that HKDF
-- promises in which nothing is left to chance.
abbrev pub HkdfSeparates : Primitives → Type 0
HkdfSeparates p =
    (salt ikm ikm' info key : Bytes) (size : ℕ)
    → p.hkdf salt ikm info size ≡ some key
    → p.hkdf salt ikm' info size ≡ some key
    → ikm ≡ ikm'
