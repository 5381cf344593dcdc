-- ===== src/Tests/Separation.antt =====
-- Sessions with a hash of 32 numbers, which gives every text a number of its own.
use e2e_chat_rs.ChatCore.Crypto.Runs.{sent}
use e2e_chat_rs.Prelude.Words.{to_be_bytes}
use e2e_chat_rs.ChatCore.Crypto.Cipher.{encrypt, next_nonce, cipher_for, associated_data_for}
use e2e_chat_rs.Tests.Units.Sessions.{Expect}
use e2e_chat_rs.ChatCore.Crypto.Bounds.{IsBounded, IsSized, after_all-IsBounded, new-IsBounded}
use e2e_chat_rs.ChatCore.Crypto.Info.{session_info, str_le, nonce_prefix}
use e2e_chat_rs.ChatCore.Crypto.Info.{str_le}
use e2e_chat_rs.ChatCore.Crypto.Runs.{all_sent, encrypts, starts_rekey, Call, after_all}
use e2e_chat_rs.Prelude.{
  refl, arith, ℕ, zero, suc, ◌≡◌, ◌+◌, ◌*◌, [], ◌∷◌, ◌++◌, Distinct, text, ◌≤◌, ◌⊎◌, replicate,
  List, All, ◌≢◌,
}
use e2e_chat_rs.ChatCore.Crypto.Primitives.{Bytes, Primitives}
use e2e_chat_rs.ChatCore.Crypto.Session.{new, generate, CryptoSession}
use e2e_chat_rs.ChatCore.Crypto.Separation.{
  HashSeparates, session_info-injective, both_sent-Distinct,
}
use e2e_chat_rs.ChatCore.Types.Parsing.{IsPolicyChar, IsWellFormed}
use e2e_chat_rs.Tests.Core.{alice, bob, alice_secret, bob_secret, message}
use e2e_chat_rs.Tests.Toy.{toy}

shift : ℕ → ℕ → ℕ
shift zero n = 2 * n + 1
shift (suc k) n = 2 * shift k n

shift-injective : (j k m n : ℕ) → shift j m ≡ shift k n → (j ≡ k) × (m ≡ n)
unfolding shift
shift-injective zero zero m n e = (refl, omega arith)
shift-injective zero (suc k) m n e = absurd (omega arith)
shift-injective (suc j) zero m n e = absurd (omega arith)
shift-injective (suc j) (suc k) m n e =
    let (same, rest) = shift-injective j k m n (omega arith) in (omega arith, rest)

shift_positive : (k n : ℕ) → 1 ≤ shift k n
unfolding shift
shift_positive zero n = omega arith
shift_positive (suc k) n = omega (arith, shift_positive k n)

number : Bytes → ℕ
number [] = 0
number (x ∷ xs) = shift x (number xs)

number-injective : (xs ys : Bytes) → number xs ≡ number ys → xs ≡ ys
unfolding number
number-injective [] [] e = refl
number-injective [] (y ∷ ys) e = absurd (omega (arith, shift_positive y (number ys)))
number-injective (x ∷ xs) [] e = absurd (omega (arith, shift_positive x (number xs)))
number-injective (x ∷ xs) (y ∷ ys) e =
    let (heads, tails) = shift-injective x y (number xs) (number ys) e in
    ground (arith, number-injective xs ys tails)

abbrev hashing : Primitives
hashing = record toy { blake3 = λ bytes. replicate 32 (number bytes) }

hashing-HashSeparates : HashSeparates hashing alice bob
hashing-HashSeparates e = number-injective _ _ (ground arith)

alice-IsWellFormed : IsWellFormed alice
unfolding IsPolicyChar
alice-IsWellFormed = record {
  not_empty = omega arith;
  at_most_max = omega arith;
  allowed = ground arith;
}

bob-IsWellFormed : IsWellFormed bob
unfolding IsPolicyChar
bob-IsWellFormed = record {
  not_empty = omega arith;
  at_most_max = omega arith;
  allowed = ground arith;
}

session_info-injective_example : ((alice ≡ bob) × (bob ≡ alice)) ⊎ ((alice ≡ alice) × (bob ≡ bob))
unfolding session_info str_le
session_info-injective_example =
    session_info-injective alice bob bob alice alice-IsWellFormed bob-IsWellFormed bob-IsWellFormed
      alice-IsWellFormed refl

both_sent-Distinct_example : Distinct (
    all_sent hashing
      (encrypts (message 1) (text "hi")
        ∷ starts_rekey (record { bytes = [] }) (9 ∷ [])
        ∷ encrypts (message 2) (text "you")
        ∷ [])
      (new hashing
        (generate hashing alice_secret)
        (generate hashing bob_secret).public_key
        alice
        bob)
    ++ all_sent hashing (encrypts (message 3) (text "yo") ∷ []) (
        new hashing
          (generate hashing bob_secret)
          (generate hashing alice_secret).public_key
          bob
          alice))
both_sent-Distinct_example =
    both_sent-Distinct hashing alice bob hashing-HashSeparates (generate hashing alice_secret)
      (generate hashing bob_secret) (generate hashing bob_secret).public_key
      (generate hashing alice_secret).public_key
      (encrypts (message 1) (text "hi")
        ∷ starts_rekey (record { bytes = [] }) (9 ∷ [])
        ∷ encrypts (message 2) (text "you")
        ∷ [])
      (encrypts (message 3) (text "yo") ∷ []) alice-IsWellFormed bob-IsWellFormed (λ same. cc)

abbrev new_alice : CryptoSession
new_alice =
    new hashing (generate hashing alice_secret) (generate hashing bob_secret).public_key alice bob

abbrev calls : List Call
calls =
    encrypts (message 1) (text "hi")
    ∷ starts_rekey (record { bytes = [] }) (9 ∷ [])
    ∷ encrypts (message 2) (text "you")
    ∷ []

after_all-IsBounded_example :
    IsBounded (after_all hashing calls new_alice) × All IsSized (all_sent hashing calls new_alice)
unfolding new
after_all-IsBounded_example =
    after_all-IsBounded hashing calls new_alice (tt, (tt, (tt, tt))) (omega arith)
      (new-IsBounded hashing (generate hashing alice_secret)
        (generate hashing bob_secret).public_key alice bob (λ bytes. refl))

-- A unit test of crypto.rs, with a hash that tells texts apart.
GeneratesDistinctNoncesForEachDirection : Type 0
GeneratesDistinctNoncesForEachDirection =
    let a = generate hashing alice_secret in
    let b = generate hashing bob_secret in
    Expect (encrypt hashing (message 1) (text "hello bob") (new hashing a b.public_key alice bob)).0
      (λ from_alice.
        Expect
          (encrypt hashing (message 2) (text "hello alice")
            (new hashing b a.public_key bob alice)).0
          (λ from_bob. from_alice.nonce ≢ from_bob.nonce))

direction_passes : GeneratesDistinctNoncesForEachDirection
unfolding GeneratesDistinctNoncesForEachDirection toy generate new encrypt next_nonce cipher_for
    associated_data_for session_info nonce_prefix str_le to_be_bytes all_sent sent
direction_passes =
    (both_sent-Distinct hashing alice bob hashing-HashSeparates (generate hashing alice_secret)
      (generate hashing bob_secret) (generate hashing bob_secret).public_key
      (generate hashing alice_secret).public_key (encrypts (message 1) (text "hello bob") ∷ [])
      (encrypts (message 2) (text "hello alice") ∷ []) alice-IsWellFormed bob-IsWellFormed
      (λ same. cc)).0.0
