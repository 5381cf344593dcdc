-- ===== src/Tests/Core.antt =====
-- The theorems of chat-core at concrete sessions: alice and bob, over the stand-in libraries.
use e2e_chat_rs.Prelude.{ℕ_discrete}
use e2e_chat_rs.ChatCore.Types.{ClientId-discrete}
use e2e_chat_rs.ChatCore.Crypto.Marks.{seen}
use e2e_chat_rs.ChatCore.Crypto.Cipher.{decrypt}
use e2e_chat_rs.ChatCore.Crypto.Refusal.{SameSession, decrypt_refuses}
use e2e_chat_rs.ChatCore.Crypto.Session.{duplicate_nonce, unknown_epoch}
use e2e_chat_rs.ChatCore.Crypto.InFlight.{in_flight_lost}
use e2e_chat_rs.ChatCore.Crypto.Tampering.{open_envelope-encrypt}
use e2e_chat_rs.ChatCore.Crypto.Delivery.{sent_one}
use e2e_chat_rs.ChatCore.Crypto.Rekey.{apply_next_master}
use e2e_chat_rs.ChatCore.Crypto.Cipher.{encrypt, next_nonce, open_envelope, decrypt, accepts_epoch}
use e2e_chat_rs.Prelude.{
  refl, ℕ, ◌≡◌, List, [], ◌∷◌, arith, ok, err, text, Distinct, some, none, ◌⊎◌, true,
}
use e2e_chat_rs.ChatCore.Types.{ClientId, MessageId, RekeyId}
use e2e_chat_rs.ChatCore.Event.{chat, EncryptedEnvelope}
use e2e_chat_rs.ChatCore.Crypto.Primitives.{Bytes}
use e2e_chat_rs.ChatCore.Crypto.Session.{
  CryptoSession, new, generate, authentication_failed, PendingRekey,
}
use e2e_chat_rs.ChatCore.Crypto.Cipher.{cipher_for, associated_data_for}
use e2e_chat_rs.ChatCore.Crypto.Linked.{Linked, Delivered, deliver}
use e2e_chat_rs.ChatCore.Crypto.Phases.{IsIdle, with_handshake-Linked}
use e2e_chat_rs.ChatCore.Crypto.Handshake.{HasRoom, Exchange, exchange}
use e2e_chat_rs.ChatCore.Crypto.Agreement.{new-Linked}
use e2e_chat_rs.ChatCore.Crypto.Delivery.{encrypt-Conveys}
use e2e_chat_rs.ChatCore.Crypto.Crossing.{Refused, request_crosses}
use e2e_chat_rs.ChatCore.Crypto.Runs.{
  Call, encrypts, encrypts_payload, starts_rekey, commits, decrypts, all_sent, all_accepted,
}
use e2e_chat_rs.ChatCore.Crypto.OutboundNonces.{all_sent-Distinct}
use e2e_chat_rs.ChatCore.Crypto.Replay.{all_accepted-Distinct}
use e2e_chat_rs.Tests.Toy.{
  toy, toy-NeverFails, toy-DhAgrees, toy-AeadRoundTrips, toy-PayloadRoundTrips, toy-AeadBinds,
  toy-AssociatedDataInjective, toy-HkdfSeparates,
}

abbrev pub alice : ClientId
alice = record { value = text "alice" }

abbrev pub bob : ClientId
bob = record { value = text "bob" }

abbrev pub alice_secret : Bytes
alice_secret = 3 ∷ 1 ∷ []

abbrev pub bob_secret : Bytes
bob_secret = 4 ∷ []

abbrev pub alice_session : CryptoSession
alice_session = new toy (generate toy alice_secret) (generate toy bob_secret).public_key alice bob

abbrev pub bob_session : CryptoSession
bob_session = new toy (generate toy bob_secret) (generate toy alice_secret).public_key bob alice

abbrev pub message : ℕ → MessageId
message n = record { uuid = n }

abbrev pub first_rekey : RekeyId
first_rekey = record { bytes = 7 ∷ [] }

pub sessions-Linked : Linked alice_session bob_session × IsIdle alice_session × IsIdle bob_session
sessions-Linked = new-Linked toy toy-DhAgrees alice_secret bob_secret alice bob

abbrev alice_calls : List Call
alice_calls =
    encrypts (message 1) (text "hi")
    ∷ starts_rekey first_rekey (9 ∷ [])
    ∷ commits
    ∷ encrypts_payload (message 2) (chat (text "again"))
    ∷ []

all_sent-Distinct_example : Distinct (all_sent toy alice_calls alice_session)
all_sent-Distinct_example =
    all_sent-Distinct toy alice_calls alice_session (unfold new in ground arith)

deliver_example :
    Delivered toy
      (toy-NeverFails 1000)
      toy-AeadRoundTrips
      toy-PayloadRoundTrips
      alice_session
      bob_session
      (message 1)
      (chat (text "hi"))
unfolding toy toy-NeverFails new
deliver_example =
    deliver toy (toy-NeverFails 1000) toy-AeadRoundTrips toy-PayloadRoundTrips alice_session
      bob_session (message 1) (chat (text "hi")) sessions-Linked.0 (omega arith) (omega arith)

pub room_for_rekey :
    HasRoom toy
      (toy-NeverFails 1000)
      toy-DhAgrees
      toy-AeadRoundTrips
      toy-PayloadRoundTrips
      alice_session
      bob_session
      first_rekey
      (5 ∷ [])
      (6 ∷ [])
unfolding toy toy-NeverFails new
room_for_rekey = record {
  request_fits = omega arith;
  reply_fits = omega arith;
  initiator = omega arith;
  responder = omega arith;
}

exchange_example :
    Exchange toy
      (toy-NeverFails 1000)
      toy-DhAgrees
      toy-AeadRoundTrips
      toy-PayloadRoundTrips
      alice_session
      bob_session
      first_rekey
      (5 ∷ [])
      (6 ∷ [])
      (8 ∷ [])
      (message 3)
      (message 4)
exchange_example =
    exchange toy (toy-NeverFails 1000) toy-DhAgrees toy-AeadRoundTrips toy-PayloadRoundTrips
      alice_session bob_session first_rekey (5 ∷ []) (6 ∷ []) (8 ∷ []) (message 3) (message 4)
      sessions-Linked.0 sessions-Linked.1 sessions-Linked.2 room_for_rekey

-- What bob receives: the first envelope of alice, twice.
abbrev first_envelope : EncryptedEnvelope
first_envelope = elim (encrypt toy (message 1) (text "hi") alice_session).0 [
  | ok envelope ↦ envelope
  | err e ↦ record {
    sender = alice;
    recipient = bob;
    message_id = message 1;
    epoch = 0;
    nonce = record { bytes = [] };
    ciphertext = record { bytes = [] };
  }
]

abbrev bob_calls : List Call
bob_calls = decrypts first_envelope ∷ decrypts first_envelope ∷ []

all_accepted-Distinct_example : Distinct (all_accepted toy bob_calls bob_session)
unfolding toy new encrypt next_nonce cipher_for associated_data_for
all_accepted-Distinct_example =
    all_accepted-Distinct toy bob_calls bob_session (omega arith, (omega arith, tt)) (omega arith)

first_sealed :
    encrypt toy (message 1) (text "hi") alice_session ≡ (ok first_envelope, sent_one alice_session)
unfolding toy new encrypt next_nonce cipher_for associated_data_for
first_sealed = refl

first_opens : open_envelope toy first_envelope bob_session ≡ ok (text "hi")
first_opens =
    let (envelope, sealed, conveys) =
      encrypt-Conveys toy (toy-NeverFails 1000) toy-AeadRoundTrips alice_session bob_session
        (message 1) (text "hi") sessions-Linked.0.sync (omega arith) (unfold new in omega arith) in
    ground (arith, sealed, conveys, first_sealed)

open_envelope-encrypt_example :
    (first_envelope ≡ first_envelope)
    × (cipher_for toy bob_session first_envelope.epoch
        ≡ cipher_for toy alice_session first_envelope.epoch)
open_envelope-encrypt_example =
    open_envelope-encrypt toy toy-AeadBinds toy-AssociatedDataInjective (message 1) (text "hi")
      (text "hi") alice_session (sent_one alice_session) bob_session first_envelope first_envelope
      first_sealed first_opens refl

in_flight_lost_example :
    open_envelope toy first_envelope (apply_next_master [] bob_session) ≡ err authentication_failed
unfolding new toy generate
in_flight_lost_example =
    in_flight_lost toy (toy-NeverFails 1000) toy-AeadBinds toy-AssociatedDataInjective
      toy-HkdfSeparates (message 1) (text "hi") [] alice_session (sent_one alice_session)
      bob_session first_envelope sessions-Linked.0.sync first_sealed (λ same. cc) (omega arith)

-- Bob has asked for a rekey himself when alice's request arrives.
abbrev asked_by_bob : PendingRekey
asked_by_bob = record { rekey_id = record { bytes = 8 ∷ [] }; ephemeral_secret = 6 ∷ [] }

abbrev asking_bob : CryptoSession
asking_bob = record bob_session { pending_rekey = some asked_by_bob }

request_crosses_example :
    Refused toy
      (toy-NeverFails 1000)
      toy-AeadRoundTrips
      toy-PayloadRoundTrips
      alice_session
      asking_bob
      first_rekey
      (5 ∷ [])
      (message 3)
      asked_by_bob
unfolding new
request_crosses_example =
    request_crosses toy (toy-NeverFails 1000) toy-AeadRoundTrips toy-PayloadRoundTrips alice_session
      asking_bob first_rekey (5 ∷ []) (message 3) asked_by_bob
      (with_handshake-Linked alice_session bob_session none (some asked_by_bob) none none
        sessions-Linked.0)
      refl room_for_rekey.request_fits (omega arith)

-- An envelope of an epoch that bob has not reached.
abbrev early_envelope : EncryptedEnvelope
early_envelope = record {
  sender = alice;
  recipient = bob;
  message_id = message 1;
  epoch = 5;
  nonce = record { bytes = [] };
  ciphertext = record { bytes = [] };
}

decrypt_refuses_example :
    SameSession bob_session (decrypt toy early_envelope bob_session).1
    × ((open_envelope toy early_envelope bob_session ≡ err unknown_epoch)
        ⊎ ((unknown_epoch ≡ duplicate_nonce)
            × (seen bob_session early_envelope.epoch early_envelope.nonce ≡ true)
            × ((plaintext : Bytes) × (open_envelope toy early_envelope bob_session
                  ≡ ok plaintext))))
unfolding new open_envelope accepts_epoch decrypt ClientId-discrete ℕ_discrete
decrypt_refuses_example = decrypt_refuses toy early_envelope bob_session unknown_epoch refl
