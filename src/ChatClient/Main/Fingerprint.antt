-- ===== src/ChatClient/Main/Fingerprint.antt =====
-- The fingerprint that one client shows, as `--verify-fingerprint` of the other reads it.
use e2e_chat_rs.Prelude.{
  ℕ, ◌*◌, ◌/◌, ◌%◌, ◌<◌, ◌≡◌, refl, ◌∙◌, ap, true, ◌&&◌, ◌||◌, List, [], ◌∷◌, arith, ok, length,
  leb, All, all, ℕ_eq,
}
use mathlib.Core.List.{reverse, reverse_aux, reverse-reverse}
use e2e_chat_rs.ChatCore.Types.{PublicKeyBytes}
use e2e_chat_rs.ChatCore.Crypto.Primitives.{Bytes, Primitives}
use e2e_chat_rs.ChatCore.Crypto.Info.{hex, hex_digit, fingerprint}
use e2e_chat_rs.ChatClient.Texts.{is_whitespace, trim_start, trim, to_lowercase}
use e2e_chat_rs.ChatClient.Main.{normalize_fingerprint, byte_len, is_ascii_hexdigit}

-- A lowercase hexadecimal digit.
abbrev IsHex : ℕ → Type 0
IsHex c = ((leb b'0' c && leb c b'9') || (leb b'a' c && leb c b'f')) ≡ true

hex_digit-IsHex : (n : ℕ) → n < 16 → IsHex (hex_digit n)
hex_digit-IsHex n h = ground arith

hex-IsHex : (bytes : Bytes) → All (λ b. b < 256) bytes → All IsHex (hex bytes)
unfolding hex
hex-IsHex [] h = tt
hex-IsHex (b ∷ bs) h =
    let small : b < 256 = h.0 in
    (
      hex_digit-IsHex (b / 16) (omega arith),
      (hex_digit-IsHex (b % 16) (omega arith), hex-IsHex bs h.1),
    )

length-hex : (bytes : Bytes) → length (hex bytes) ≡ 2 * length bytes
unfolding hex
length-hex [] = refl
length-hex (b ∷ bs) = omega (arith, length-hex bs)

All-reverse_aux {ℓ κ} :
    {A : Type ℓ} (P : A → Type κ) (xs ys : List A) → All P xs → All P ys → All P (reverse_aux xs ys)
All-reverse_aux P [] ys h k = k
All-reverse_aux P (x ∷ xs) ys h k = All-reverse_aux P xs (x ∷ ys) h.1 (h.0, k)

trim_start-IsHex : (xs : List ℕ) → All IsHex xs → trim_start xs ≡ xs
unfolding trim_start is_whitespace
trim_start-IsHex [] h = refl
trim_start-IsHex (x ∷ xs) h = ground (arith, h.0)

trim-IsHex : (xs : List ℕ) → All IsHex xs → trim xs ≡ xs
unfolding trim
trim-IsHex xs h =
    ap (λ (ys : List ℕ). reverse (trim_start (reverse ys))) (trim_start-IsHex xs h)
    ∙ ap (λ (ys : List ℕ). reverse ys)
        (trim_start-IsHex (reverse xs) (All-reverse_aux IsHex xs [] h tt))
    ∙ reverse-reverse xs

to_lowercase-IsHex : (lower : ℕ → List ℕ) (xs : List ℕ) → All IsHex xs → to_lowercase lower xs ≡ xs
unfolding to_lowercase
to_lowercase-IsHex lower [] h = refl
to_lowercase-IsHex lower (x ∷ xs) h = ground (arith, h.0, to_lowercase-IsHex lower xs h.1)

byte_len-IsHex : (xs : List ℕ) → All IsHex xs → byte_len xs ≡ length xs
byte_len-IsHex [] h = refl
byte_len-IsHex (x ∷ xs) h = ground (arith, h.0, byte_len-IsHex xs h.1)

all-IsHex : (xs : List ℕ) → All IsHex xs → all is_ascii_hexdigit xs ≡ true
all-IsHex [] h = refl
all-IsHex (x ∷ xs) h = ground (arith, h.0, all-IsHex xs h.1)

-- The fingerprint that is shown for a key is accepted unchanged as a fingerprint to verify,
-- whatever the table of lower case for other characters. The hash has 32 bytes, each below 256.
pub normalize_fingerprint-fingerprint :
    (prim : Primitives) (lower : ℕ → List ℕ) (key : PublicKeyBytes)
    → length (prim.sha256 key.bytes) ≡ 32
    → All (λ b. b < 256) (prim.sha256 key.bytes)
    → normalize_fingerprint lower (fingerprint prim key) ≡ ok (fingerprint prim key)
unfolding normalize_fingerprint fingerprint
normalize_fingerprint-fingerprint prim lower key size small =
    let shown = fingerprint prim key in
    let digits = hex-IsHex (prim.sha256 key.bytes) small in
    let same : to_lowercase lower (trim shown) ≡ shown =
      ap (to_lowercase lower) (trim-IsHex shown digits) ∙ to_lowercase-IsHex lower shown digits in
    ground (
      arith,
      same,
      byte_len-IsHex shown digits,
      all-IsHex shown digits,
      length-hex (prim.sha256 key.bytes),
    )
