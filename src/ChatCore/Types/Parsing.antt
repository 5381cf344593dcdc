-- ===== src/ChatCore/Types/Parsing.antt =====
-- `ClientId::parse` against the identity policy of docs/ARCHITECTURE.md.
use e2e_chat_rs.Prelude.{
  ℕ, ◌≤◌, ◌≡◌, refl, ◌↔◌, true, List, [], ◌∷◌, arith, ok, length, All, all, ◌⊎◌,
}
use e2e_chat_rs.ChatCore.Types.{ClientId, is_allowed_client_id_char, parse}

-- A character of the policy: an ASCII letter or digit, `-`, `_` or `.`.
unfoldable pub IsPolicyChar : ℕ → Type 0
IsPolicyChar c =
    ((48 ≤ c) × (c ≤ 57))
    ⊎ (((65 ≤ c) × (c ≤ 90)) ⊎ (((97 ≤ c) × (c ≤ 122)) ⊎ ((c ≡ 45) ⊎ ((c ≡ 95) ⊎ (c ≡ 46)))))

-- What the policy promises of an identifier.
pub record IsWellFormed (id : ClientId) : Type 0 where
  pub not_empty : 1 ≤ length id.value
  pub at_most_max : length id.value ≤ 64
  pub allowed : All IsPolicyChar id.value

allowed-IsPolicyChar : (c : ℕ) → is_allowed_client_id_char c ≡ true → IsPolicyChar c
unfolding is_allowed_client_id_char IsPolicyChar
allowed-IsPolicyChar c h = ground arith

pub IsPolicyChar-allowed : (c : ℕ) → IsPolicyChar c → is_allowed_client_id_char c ≡ true
unfolding is_allowed_client_id_char IsPolicyChar
IsPolicyChar-allowed c h = ground arith

all-IsPolicyChar : (xs : List ℕ) → all is_allowed_client_id_char xs ≡ true → All IsPolicyChar xs
all-IsPolicyChar [] h = tt
all-IsPolicyChar (x ∷ xs) h =
    (allowed-IsPolicyChar x (ground arith), all-IsPolicyChar xs (ground arith))

pub IsPolicyChar-all : (xs : List ℕ) → All IsPolicyChar xs → all is_allowed_client_id_char xs ≡ true
IsPolicyChar-all [] h = refl
IsPolicyChar-all (x ∷ xs) (here, rest) =
    ground (arith, IsPolicyChar-allowed x here, IsPolicyChar-all xs rest)

-- ClientId::parse accepts a text exactly when it has 1 to 64 characters, each of them an ASCII
-- letter or digit, a hyphen, an underscore or a full stop, and then returns it unchanged.
pub parse_iff :
    (value : List ℕ) (id : ClientId)
    → (parse value ≡ ok id) ↔ ((id ≡ record { value = value }) × IsWellFormed id)
unfolding parse
parse_iff [] id = (λ h. cc, λ h. ground arith)
parse_iff (c ∷ cs) id = (
  λ h. (
    ground arith,
    record {
      not_empty = ground arith;
      at_most_max = ground arith;
      allowed = ground (arith, all-IsPolicyChar (c ∷ cs));
    },
  ),
  λ h. ground (arith, IsPolicyChar-all (c ∷ cs)),
)
