-- ===== src/ChatCore/Crypto/Agreement.antt =====
-- `CryptoSession::new` at both ends of a conversation.
use e2e_chat_rs.Prelude.{◌≡◌, refl, [], ◌∷◌, arith, ℕ_eq}
use e2e_chat_rs.Prelude.Maps
use e2e_chat_rs.ChatCore.Types.{ClientId}
use e2e_chat_rs.ChatCore.Crypto.Primitives.{Bytes, Primitives, DhAgrees}
use e2e_chat_rs.ChatCore.Crypto.Info.{str_le, sort_two, session_info}
use e2e_chat_rs.ChatCore.Crypto.Session.{generate, new}
use e2e_chat_rs.ChatCore.Crypto.Linked.{Linked}
use e2e_chat_rs.ChatCore.Crypto.Phases.{IsIdle}

sort_two_comm : (xs ys : Bytes) → sort_two xs ys ≡ sort_two ys xs
unfolding str_le
sort_two_comm [] [] = refl
sort_two_comm [] (y ∷ ys) = refl
sort_two_comm (x ∷ xs) [] = refl
sort_two_comm (x ∷ xs) (y ∷ ys) = ground (arith, sort_two_comm xs ys)

session_info_comm : (a b : ClientId) → session_info a b ≡ session_info b a
unfolding session_info
session_info_comm a b = rw (sort_two_comm a.value b.value) refl

-- Two clients that know each other's public key start with sessions that are linked, and with no
-- rekey under way, if the two ends of a Diffie-Hellman exchange agree.
pub new-Linked :
    (prim : Primitives) (agrees : DhAgrees prim) (secret_a secret_b : Bytes) (a b : ClientId)
    → (Linked
        (new prim (generate prim secret_a) (generate prim secret_b).public_key a b)
        (new prim (generate prim secret_b) (generate prim secret_a).public_key b a))
      × IsIdle (new prim (generate prim secret_a) (generate prim secret_b).public_key a b)
      × IsIdle (new prim (generate prim secret_b) (generate prim secret_a).public_key b a)
unfolding new generate Maps.get
new-Linked prim agrees secret_a secret_b a b = (
  record {
    sync = record {
      master = agrees secret_b secret_a;
      info = session_info_comm b a;
      epoch = refl;
      to_peer = refl;
      from_peer = refl;
    };
    forth = λ e n later fits. refl;
    back = λ e n later fits. refl;
  },
  record { pending = refl; staged = refl },
  record { pending = refl; staged = refl },
)
