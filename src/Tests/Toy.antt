-- ===== src/Tests/Toy.antt =====
-- Transparent stand-ins for the libraries, which meet the assumptions that the theorems make. They
-- keep nothing secret: a ciphertext spells its key, nonce and associated data.
use e2e_chat_rs.Prelude.{
  ℕ, zero, suc, ◌+◌, ◌≡◌, refl, ap, true, Option, none, some, [], ◌∷◌, ◌++◌, length, arith, ◌==◌,
  ℕ_eq, if◌then◌else◌, ◌∙◌, subst, sym,
}
use mathlib.Core.List.{append_assoc}
use mathlib.Core.Option.{some-injective}
use native.Mathlib.Nat.{add_comm}
use e2e_chat_rs.ChatCore.Event.{SessionPayload, chat, rekey_request, rekey_response}
use e2e_chat_rs.ChatCore.Crypto.Primitives.{
  Bytes, Primitives, AssociatedData, DhAgrees, AeadRoundTrips, PayloadRoundTrips, NeverFails,
  AeadBinds, AssociatedDataInjective, HkdfSeparates,
}

unfoldable pub frame : Bytes → Bytes → Bytes
frame xs rest = length xs ∷ (xs ++ rest)

take_prefix : Bytes → Bytes → Option Bytes
take_prefix [] ys = some ys
take_prefix (x ∷ xs) [] = none
take_prefix (x ∷ xs) (y ∷ ys) = if x == y then take_prefix xs ys else none

take_prefix-append : (xs ys : Bytes) → take_prefix xs (xs ++ ys) ≡ some ys
unfolding take_prefix
take_prefix-append [] ys = refl
take_prefix-append (x ∷ xs) ys = ground (arith, take_prefix-append xs ys)

take_prefix-some : (xs ys rest : Bytes) → take_prefix xs ys ≡ some rest → ys ≡ xs ++ rest
unfolding take_prefix
take_prefix-some [] ys rest h = ground arith
take_prefix-some (x ∷ xs) [] rest h = cc
take_prefix-some (x ∷ xs) (y ∷ ys) rest h = ground (arith, take_prefix-some xs ys rest)

append_injective :
    (xs ys xs' ys' : Bytes)
    → length xs ≡ length xs'
    → xs ++ ys ≡ xs' ++ ys'
    → (xs ≡ xs') × (ys ≡ ys')
append_injective [] ys [] ys' l e = (refl, e)
append_injective [] ys (x ∷ xs') ys' l e = absurd (omega arith)
append_injective (x ∷ xs) ys [] ys' l e = absurd (omega arith)
append_injective (x ∷ xs) ys (x' ∷ xs') ys' l e =
    let (tails, rests) = append_injective xs ys xs' ys' (omega arith) (cc) in (cc (tails), rests)

frame-injective :
    (xs ys rest rest' : Bytes) → frame xs rest ≡ frame ys rest' → (xs ≡ ys) × (rest ≡ rest')
unfolding frame
frame-injective xs ys rest rest' e = append_injective xs rest ys rest' (cc) (cc)

total : Bytes → ℕ
total [] = 0
total (x ∷ xs) = x + total xs

write_payload : SessionPayload → Bytes
write_payload (chat words) = 0 ∷ words
write_payload (rekey_request id key) = 1 ∷ frame id.bytes key.bytes
write_payload (rekey_response id key) = 2 ∷ frame id.bytes key.bytes

unfoldable pub split_at : ℕ → Bytes → Bytes × Bytes
split_at zero xs = ([], xs)
split_at (suc n) [] = ([], [])
split_at (suc n) (x ∷ xs) = let (front, back) = split_at n xs in (x ∷ front, back)

pub split_at-append : (xs ys : Bytes) → split_at (length xs) (xs ++ ys) ≡ (xs, ys)
unfolding split_at
split_at-append [] ys = refl
split_at-append (x ∷ xs) ys = ground (arith, split_at-append xs ys)

read_payload : Bytes → Option SessionPayload
read_payload (zero ∷ words) = some (chat words)
read_payload (suc zero ∷ n ∷ rest) =
    let (id, key) = split_at n rest in
    some (rekey_request (record { bytes = id }) (record { bytes = key }))
read_payload (suc (suc zero) ∷ n ∷ rest) =
    let (id, key) = split_at n rest in
    some (rekey_response (record { bytes = id }) (record { bytes = key }))
read_payload _ = none

write_data : AssociatedData → Bytes
write_data d =
    frame d.sender.value (frame d.recipient.value (d.version ∷ d.message_id.uuid ∷ d.epoch ∷ []))

unfoldable pub toy : Primitives
unfolding frame take_prefix total write_payload split_at read_payload write_data
toy = record {
  x25519_public = λ secret. secret;
  x25519 = λ secret public. (total secret + total public) ∷ [];
  hkdf = λ salt ikm info size. some (frame salt (frame ikm info));
  aead_accepts_key = λ _. true;
  aead_encrypt = λ key nonce message aad. some (frame key (frame nonce (frame aad message)));
  aead_decrypt =
      λ key nonce ciphertext aad. take_prefix (frame key (frame nonce (frame aad []))) ciphertext;
  sha256 = λ bytes. bytes;
  blake3 = λ bytes. bytes;
  payload_to_vec = λ payload. some (write_payload payload);
  payload_from_slice = read_payload;
  associated_data_to_vec = λ d. some (write_data d);
}

pub toy-DhAgrees : DhAgrees toy
unfolding toy
toy-DhAgrees a b = ap (λ (n : ℕ). n ∷ []) (add_comm (total a) (total b))

pub toy-PayloadRoundTrips : PayloadRoundTrips toy
unfolding toy
toy-PayloadRoundTrips (chat words) bytes h = ground arith
toy-PayloadRoundTrips (rekey_request id key) bytes h =
    ground (arith, split_at-append id.bytes key.bytes)
toy-PayloadRoundTrips (rekey_response id key) bytes h =
    ground (arith, split_at-append id.bytes key.bytes)

frames-append :
    (a b c rest : Bytes) → frame a (frame b (frame c [])) ++ rest ≡ frame a (frame b (frame c rest))
unfolding frame
frames-append a b c rest = simp (append_assoc)

seal : Bytes → Bytes → Bytes → Bytes → Bytes
seal key nonce aad message = frame key (frame nonce (frame aad message))

open-seal :
    (key nonce aad message : Bytes)
    → take_prefix (seal key nonce aad []) (seal key nonce aad message) ≡ some message
unfolding seal
open-seal key nonce aad message =
    rw (← frames-append key nonce aad message) (take_prefix-append _ message)

seal-injective :
    (key nonce aad message key' nonce' aad' message' : Bytes)
    → seal key nonce aad message ≡ seal key' nonce' aad' message'
    → (key ≡ key') × (nonce ≡ nonce') × (aad ≡ aad')
unfolding seal
seal-injective key nonce aad message key' nonce' aad' message' e =
    let (keys, inner) = frame-injective key key' _ _ e in
    let (nonces, innermost) = frame-injective nonce nonce' _ _ inner in
    (keys, nonces, (frame-injective aad aad' _ _ innermost).0)

opened_seal :
    (key nonce aad ciphertext message : Bytes)
    → take_prefix (seal key nonce aad []) ciphertext ≡ some message
    → ciphertext ≡ seal key nonce aad message
unfolding seal
opened_seal key nonce aad ciphertext message h =
    take_prefix-some _ ciphertext message h ∙ frames-append key nonce aad message

write_data-injective : (a b : AssociatedData) → write_data a ≡ write_data b → a ≡ b
unfolding write_data
write_data-injective a b e =
    let (senders, inner) = frame-injective a.sender.value b.sender.value _ _ e in
    let (recipients, rest) = frame-injective a.recipient.value b.recipient.value _ _ inner in
    ground arith

pub toy-AeadRoundTrips : AeadRoundTrips toy
unfolding toy
toy-AeadRoundTrips key nonce message aad ciphertext h =
    subst (λ c. toy.aead_decrypt key nonce c aad ≡ some message) (some-injective _ _ h)
      (unfold seal in open-seal key nonce aad message)

unfoldable pub toy-NeverFails : (n : ℕ) → NeverFails toy n
unfolding toy
toy-NeverFails n = record {
  expands = λ salt ikm info. (frame salt (frame ikm info), refl, refl);
  encrypts = λ key nonce message aad _. (frame key (frame nonce (frame aad message)), refl);
  payload = λ payload. (write_payload payload, refl);
  associated_data = λ d. (write_data d, refl);
}

pub toy-AeadBinds : AeadBinds toy
unfolding toy
toy-AeadBinds key nonce message aad ciphertext key' nonce' message' aad' sealed opened =
    seal-injective key nonce aad message key' nonce' aad' message' (
      unfold seal in
      (some-injective _ _ sealed ∙ opened_seal key' nonce' aad' ciphertext message' opened))

pub toy-AssociatedDataInjective : AssociatedDataInjective toy
unfolding toy
toy-AssociatedDataInjective a b bytes ha hb =
    write_data-injective a b (some-injective _ _ (ha ∙ sym hb))

pub toy-HkdfSeparates : HkdfSeparates toy
unfolding toy
toy-HkdfSeparates salt ikm ikm' info key size h h' =
    let (salts, rests) = frame-injective salt salt _ _ (some-injective _ _ (h ∙ sym h')) in
    (frame-injective ikm ikm' info info rests).0
