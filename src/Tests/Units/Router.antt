-- ===== src/Tests/Units/Router.antt =====
-- The unit tests of crates/chat-server/src/router.rs.
use e2e_chat_rs.Prelude.{
  ◌≡◌, refl, ℕ, List, [], ◌∷◌, Bool, true, false, ok, err, length, text, replicate,
}
use e2e_chat_rs.Prelude.Maps
use e2e_chat_rs.ChatCore.Types.{ClientId, ClientId-discrete}
use e2e_chat_rs.ChatCore.Event.{WireEvent, peer_key, encrypted_message, ack}
use e2e_chat_rs.ChatCore.Service.{MessageRouter, sender_mismatch, unknown_recipient}
use e2e_chat_rs.ChatServer.Router.{
  InMemoryRouter, default, connect, route, drain_outbox, recipient_for, ack_for, push_back,
  in_memory,
}
use e2e_chat_rs.Tests.Core.{alice, bob, message}

abbrev pub mallory : ClientId
mallory = record { value = text "mallory" }

abbrev pub key_from : ClientId → ℕ → WireEvent
key_from from byte = peer_key from bob (record { bytes = replicate 32 byte })

abbrev pub message_of : ℕ → List ℕ → WireEvent
message_of nonce ciphertext = encrypted_message (record {
  sender = alice;
  recipient = bob;
  message_id = message 1;
  epoch = 0;
  nonce = record { bytes = replicate 24 nonce };
  ciphertext = record { bytes = ciphertext };
})

abbrev pub is_encrypted_message : WireEvent → Bool
is_encrypted_message (encrypted_message envelope) = true
is_encrypted_message _ = false

abbrev pub first_is : (WireEvent → Bool) → List WireEvent → Bool
first_is p [] = false
first_is p (event ∷ events) = p event

-- A router with alice, and then with bob.
abbrev one_connected : InMemoryRouter
one_connected = (connect default alice).1

abbrev connected : InMemoryRouter
connected = (connect one_connected bob).1

abbrev Connects : Type 0
Connects = ((connect default alice).0 ≡ ok tt) × ((connect one_connected bob).0 ≡ ok tt)

RoutesPeerKeyToRecipientOutbox : Type 0
RoutesPeerKeyToRecipientOutbox =
    let routed = route connected alice (key_from alice 1) in
    Connects × (routed.0 ≡ ok tt) × (length (drain_outbox routed.1 bob).0 ≡ 1)

RoutesEncryptedMessageToRecipientOutbox : Type 0
RoutesEncryptedMessageToRecipientOutbox =
    let routed = route connected alice (message_of 7 (1 ∷ 2 ∷ 3 ∷ [])) in
    let outbox = (drain_outbox routed.1 bob).0 in
    Connects
    × (routed.0 ≡ ok tt)
    × (length outbox ≡ 1)
    × (first_is is_encrypted_message outbox ≡ true)

AcksAcceptedEncryptedMessageToSenderOutbox : Type 0
AcksAcceptedEncryptedMessageToSenderOutbox =
    let routed = route connected alice (message_of 8 (4 ∷ 5 ∷ 6 ∷ [])) in
    Connects × (routed.0 ≡ ok tt) × ((drain_outbox routed.1 alice).0 ≡ ack (message 1) ∷ [])

RejectsForgedSender : Type 0
RejectsForgedSender =
    Connects × ((route connected alice (key_from mallory 2)).0 ≡ err sender_mismatch)

RejectsUnknownRecipient : Type 0
RejectsUnknownRecipient =
    ((connect default alice).0 ≡ ok tt)
    × ((route one_connected alice (key_from alice 3)).0 ≡ err unknown_recipient)

-- Through the trait.
InMemoryRouterSatisfiesMessageRouterContract : {R : Type 0} → MessageRouter R → R → Type 0
InMemoryRouterSatisfiesMessageRouterContract router r =
    let first = router.connect r alice in
    let second = router.connect first.1 bob in
    let routed = router.route second.1 alice (key_from alice 4) in
    (first.0 ≡ ok tt)
    × (second.0 ≡ ok tt)
    × (routed.0 ≡ ok tt)
    × (length (router.drain_outbox routed.1 bob).0 ≡ 1)

passes :
    RoutesPeerKeyToRecipientOutbox
    × RoutesEncryptedMessageToRecipientOutbox
    × AcksAcceptedEncryptedMessageToSenderOutbox
    × RejectsForgedSender
    × RejectsUnknownRecipient
    × InMemoryRouterSatisfiesMessageRouterContract in_memory default
unfolding RoutesPeerKeyToRecipientOutbox RoutesEncryptedMessageToRecipientOutbox
    AcksAcceptedEncryptedMessageToSenderOutbox RejectsForgedSender RejectsUnknownRecipient
    InMemoryRouterSatisfiesMessageRouterContract connect route drain_outbox recipient_for ack_for
    push_back Maps.get Maps.insert ClientId-discrete
passes = (
  ((refl, refl), refl, refl),
  ((refl, refl), refl, refl, refl),
  ((refl, refl), refl, refl),
  ((refl, refl), refl),
  (refl, refl),
  (refl, refl, refl, refl),
)
