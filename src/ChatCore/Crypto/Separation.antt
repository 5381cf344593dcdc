-- ===== src/ChatCore/Crypto/Separation.antt =====
-- What `session_info` and `nonce_prefix` of crypto.rs keep apart: different pairs of peers, and the
-- two directions of one conversation, which share a key.
use e2e_chat_rs.Prelude.{
  refl, [], ◌∷◌, inl, inr, length-append, All-map, List, Distinct, Distinct-append,
}
use e2e_chat_rs.Prelude.Words.{to_be_bytes, length-to_be_bytes}
use e2e_chat_rs.Prelude.{
  All, ◌++◌, ◌≡◌, ◌∷◌, take, length, ℕ, arith, ◌⊎◌, ◌≢◌, Bool-cases, inl, inr, sym, ◌∙◌, ap,
}
use e2e_chat_rs.ChatCore.Types.{ClientId, NonceBytes, PublicKeyBytes}
use e2e_chat_rs.ChatCore.Crypto.Primitives.{Bytes, Primitives}
use e2e_chat_rs.ChatCore.Crypto.Session.{new, KeyPair}
use e2e_chat_rs.ChatCore.Crypto.Runs.{Call, all_sent}
use e2e_chat_rs.ChatCore.Types.Parsing.{IsPolicyChar, IsWellFormed}
use e2e_chat_rs.ChatCore.Crypto.Info.{session_info, nonce_prefix, nonce_label, info_label, str_le}
use e2e_chat_rs.ChatCore.Crypto.OutboundNonces.{
  append_cancel, IsAfter, all_sent-IsAfter, all_sent-Distinct, nonce_at,
}

abbrev AllAllowed : Bytes → Type 0
AllAllowed xs = All IsPolicyChar xs

-- A zero byte ends an identifier, which has none.
split_at_zero :
    (xs us ys vs : Bytes)
    → AllAllowed xs
    → AllAllowed us
    → xs ++ 0 ∷ ys ≡ us ++ 0 ∷ vs
    → (xs ≡ us) × (ys ≡ vs)
unfolding IsPolicyChar
split_at_zero [] [] ys vs p q e = ground arith
split_at_zero [] (u ∷ us) ys vs p q e = absurd (ground arith)
split_at_zero (x ∷ xs) [] ys vs p q e = absurd (ground arith)
split_at_zero (x ∷ xs) (u ∷ us) ys vs (_, p) (_, q) e =
    let (first, second) = split_at_zero xs us ys vs p q (ground arith) in ground arith

pair_of : ClientId → ClientId → Bytes
pair_of a b = a.value ++ 0 ∷ b.value

pair_of-injective :
    (a b c d : ClientId)
    → IsWellFormed a
    → IsWellFormed c
    → pair_of a b ≡ pair_of c d
    → (a ≡ c) × (b ≡ d)
unfolding pair_of
pair_of-injective a b c d wa wc e =
    let (first, second) = split_at_zero a.value c.value b.value d.value wa.allowed wc.allowed e in
    (ground arith, ground arith)

-- The two orders that `sort_two` may give.
session_info_lem :
    (a b : ClientId)
    → (session_info a b ≡ info_label ++ 0 ∷ pair_of a b)
      ⊎ (session_info a b ≡ info_label ++ 0 ∷ pair_of b a)
unfolding session_info pair_of
session_info_lem a b = elim (Bool-cases (str_le a.value b.value)) [
  | inl e ↦ inl (ground arith)
  | inr e ↦ inr (ground arith)
]

uncons : (xs ys : Bytes) → 0 ∷ xs ≡ 0 ∷ ys → xs ≡ ys
uncons xs ys e = cc

labelled-injective :
    (a b c d : ClientId)
    → IsWellFormed a
    → IsWellFormed c
    → info_label ++ 0 ∷ pair_of a b ≡ info_label ++ 0 ∷ pair_of c d
    → (a ≡ c) × (b ≡ d)
labelled-injective a b c d wa wc e =
    pair_of-injective a b c d wa wc (uncons _ _ (append_cancel info_label _ _ e))

-- The text that the keys of a session are bound to belongs to one pair of peers only, in either
-- order, if all identifiers are well-formed.
pub session_info-injective :
    (a b c d : ClientId)
    → IsWellFormed a
    → IsWellFormed b
    → IsWellFormed c
    → IsWellFormed d
    → session_info a b ≡ session_info c d
    → ((a ≡ c) × (b ≡ d)) ⊎ ((a ≡ d) × (b ≡ c))
session_info-injective a b c d wa wb wc wd e = elim (session_info_lem a b) [
  | inl p ↦ elim (session_info_lem c d) [
    | inl q ↦ inl (labelled-injective a b c d wa wc (sym p ∙ e ∙ q))
    | inr q ↦ inr (labelled-injective a b d c wa wd (sym p ∙ e ∙ q))
  ]
  | inr p ↦ elim (session_info_lem c d) [
    | inl q ↦ let (x, y) = labelled-injective b a c d wb wc (sym p ∙ e ∙ q) in inr (y, x)
    | inr q ↦ let (x, y) = labelled-injective b a d c wb wd (sym p ∙ e ∙ q) in inl (y, x)
  ]
]

-- What is hashed to the prefix of the nonces from `a` to `b`.
abbrev pub nonce_text : ClientId → ClientId → Bytes
nonce_text a b = nonce_label ++ 0 ∷ (a.value ++ 0 ∷ b.value)

-- The hashes for the two directions do not collide in their first sixteen bytes.
abbrev pub HashSeparates : Primitives → ClientId → ClientId → Type 0
HashSeparates prim a b =
    take 16 (prim.blake3 (nonce_text a b)) ≡ take 16 (prim.blake3 (nonce_text b a))
    → nonce_text a b ≡ nonce_text b a

nonce_prefix-injective :
    (prim : Primitives) (a b : ClientId)
    → HashSeparates prim a b
    → IsWellFormed a
    → IsWellFormed b
    → nonce_prefix prim a b ≡ nonce_prefix prim b a
    → a ≡ b
unfolding nonce_prefix pair_of
nonce_prefix-injective prim a b hash wa wb e =
    (pair_of-injective a b b a wa wb (uncons _ _ (append_cancel nonce_label _ _ (hash e)))).0

append_cancel_right : (xs ys us vs : Bytes) → length us ≡ length vs → xs ++ us ≡ ys ++ vs → xs ≡ ys
append_cancel_right [] [] us vs l e = refl
append_cancel_right [] (y ∷ ys) us vs l e =
    absurd (ground (arith, length-append ys vs, ap (λ (z : Bytes). length z) e))
append_cancel_right (x ∷ xs) [] us vs l e =
    absurd (ground (arith, length-append xs us, ap (λ (z : Bytes). length z) e))
append_cancel_right (x ∷ xs) (y ∷ ys) us vs l e =
    ground (arith, append_cancel_right xs ys us vs l (cc))

nonce_at-apart : (p q : Bytes) (m n : ℕ) → p ≢ q → nonce_at p m ≢ nonce_at q n
nonce_at-apart p q m n apart e = apart (
    append_cancel_right p q (to_be_bytes 8 m) (to_be_bytes 8 n)
      (length-to_be_bytes 8 m ∙ sym (length-to_be_bytes 8 n)) (ap (λ (x : NonceBytes). x.bytes) e))

IsAfter-apart :
    (p q : Bytes) (j k : ℕ) (ns ms : List NonceBytes)
    → p ≢ q
    → All (IsAfter p j) ns
    → All (IsAfter q k) ms
    → All (λ n. All (λ m. n ≢ m) ms) ns
IsAfter-apart p q j k ns ms apart left right =
    All-map {P = IsAfter p j} {Q = λ n. All (λ m. n ≢ m) ms}
      (λ n at.
        All-map {P = IsAfter q k} {Q = λ m. n ≢ m}
          (λ m here e. nonce_at-apart p q at.0 here.0 apart (sym at.1 ∙ e ∙ here.1)) ms right)
      ns left

-- Over any two histories of calls of the two ends of a conversation, from their new sessions on
-- and rekeys included, all the envelopes that both encrypt carry different nonces: the two
-- directions, which share a key, never use a nonce twice. The identifiers are well-formed and
-- different, and the hashes of the two directions do not collide in their first sixteen bytes.
pub both_sent-Distinct :
    (prim : Primitives) (alice bob : ClientId)
    → HashSeparates prim alice bob
    → (ka kb : KeyPair) (pa pb : PublicKeyBytes) (cs ds : List Call) → IsWellFormed alice
    → IsWellFormed bob
    → alice ≢ bob
    → Distinct
        (all_sent prim cs (new prim ka pa alice bob) ++ all_sent prim ds (new prim kb pb bob alice))
unfolding new
both_sent-Distinct prim alice bob hash ka kb pa pb cs ds wa wb apart =
    let a = new prim ka pa alice bob in
    let b = new prim kb pb bob alice in
    Distinct-append (all_sent prim cs a) (all_sent prim ds b)
      (all_sent-Distinct prim cs a (omega arith)) (all_sent-Distinct prim ds b (omega arith))
      (IsAfter-apart (nonce_prefix prim alice bob) (nonce_prefix prim bob alice) 0 0
        (all_sent prim cs a) (all_sent prim ds b)
        (λ e. apart (nonce_prefix-injective prim alice bob hash wa wb e))
        (all_sent-IsAfter prim cs a (omega arith)) (all_sent-IsAfter prim ds b (omega arith)))
