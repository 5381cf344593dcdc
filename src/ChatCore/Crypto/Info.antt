-- ===== src/ChatCore/Crypto/Info.antt =====
-- `session_info`, `nonce_prefix` and `fingerprint` of crypto.rs.
use e2e_chat_rs.Prelude.{
  ℕ, ◌+◌, ◌/◌, ◌%◌, Bool, true, false, List, [], ◌∷◌, ◌++◌, text, take, ltb, ℕ_eq, if◌then◌else◌,
}
use e2e_chat_rs.ChatCore.Types.{ClientId, PublicKeyBytes, as_str}
use e2e_chat_rs.ChatCore.Crypto.Primitives.{Bytes, Primitives}

-- `Ord` of `str`: by bytes, first difference first
unfoldable pub str_le : Bytes → Bytes → Bool
str_le [] ys = true
str_le (x ∷ xs) [] = false
str_le (x ∷ xs) (y ∷ ys) = if ltb x y then true else if ltb y x then false else str_le xs ys

-- `sort_unstable` of an array of two
abbrev pub sort_two : Bytes → Bytes → Bytes × Bytes
sort_two a b = if str_le a b then (a, b) else (b, a)

abbrev pub info_label : Bytes
info_label = text "e2e-chat-rs/x25519-xchacha20poly1305/v1"

unfoldable pub session_info : ClientId → ClientId → Bytes
session_info local_id peer_id =
    let ids : Bytes × Bytes = sort_two (as_str local_id) (as_str peer_id) in
    info_label ++ 0 ∷ (ids.0 ++ 0 ∷ ids.1)

abbrev pub nonce_label : Bytes
nonce_label = text "e2e-chat-rs/xchacha20poly1305-nonce/v1"

unfoldable pub nonce_prefix : Primitives → ClientId → ClientId → Bytes
nonce_prefix prim local_id peer_id =
    take 16 (prim.blake3 (nonce_label ++ 0 ∷ (as_str local_id ++ 0 ∷ as_str peer_id)))

-- A lowercase hexadecimal digit.
abbrev pub hex_digit : ℕ → ℕ
hex_digit n = if ltb n 10 then b'0' + n else 87 + n

-- `write!(hex, "{byte:02x}")` for each byte
unfoldable pub hex : Bytes → List ℕ
hex [] = []
hex (byte ∷ bytes) = hex_digit (byte / 16) ∷ hex_digit (byte % 16) ∷ hex bytes

unfoldable pub fingerprint : Primitives → PublicKeyBytes → List ℕ
unfolding hex
fingerprint prim public_key = hex (prim.sha256 public_key.bytes)
