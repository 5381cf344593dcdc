-- ===== src/ChatClient/Texts.antt =====
-- `str::trim` and `str::to_lowercase`, as the client uses them on fingerprints.
use e2e_chat_rs.Prelude.{
  ℕ, ◌+◌, Bool, ◌&&◌, ◌||◌, List, [], ◌∷◌, ◌++◌, ltb, leb, ◌==◌, ℕ_eq, if◌then◌else◌,
}
use mathlib.Core.List.{reverse}

-- `char::is_whitespace`: the Unicode property White_Space
unfoldable pub is_whitespace : ℕ → Bool
is_whitespace c =
    (leb 0x09 c && leb c 0x0d)
    || c == 0x20
    || c == 0x85
    || c == 0xa0
    || c == 0x1680
    || (leb 0x2000 c && leb c 0x200a)
    || c == 0x2028
    || c == 0x2029
    || c == 0x202f
    || c == 0x205f
    || c == 0x3000

unfoldable pub trim_start : List ℕ → List ℕ
trim_start [] = []
trim_start (c ∷ cs) = if is_whitespace c then trim_start cs else c ∷ cs

unfoldable pub trim : List ℕ → List ℕ
unfolding trim_start
trim s = reverse (trim_start (reverse (trim_start s)))

-- The lowercase of an ASCII character is written out; that of any other, which may be several
-- characters, is the table `lower` of Unicode.
unfoldable pub to_lowercase : (lower : ℕ → List ℕ) → List ℕ → List ℕ
to_lowercase lower [] = []
to_lowercase lower (c ∷ cs) =
    (if leb b'A' c && leb c b'Z' then (c + 32) ∷ [] else if ltb c 128 then c ∷ [] else lower c)
    ++ to_lowercase lower cs
