-- ===== src/ChatClient/Session.antt =====
-- crates/chat-client/src/session.rs: the state of a client and the events that it answers.
pub mod Rotation
pub mod PeerKey
pub mod Pinning
pub mod KeyExchange
pub mod Chatting
pub mod AutoRekey
pub mod Dialogue
use e2e_chat_rs.Prelude.{
  ℕ, Bool, true, false, ◌&&◌, ◌||◌, not, Option, none, some, List, [], ◌∷◌, leb, ◌==◌, ◌!=◌,
  bytes_eq, if◌then◌else◌, Method, Result, ok, err, pure, raise, lift, gets, modify, ◌>>=◌, ◌>>◌,
}
use e2e_chat_rs.Prelude.Words.{add_u32}
use e2e_chat_rs.ChatCore.Types.{
  ClientId, ClientId_eq, MessageId, PublicKeyBytes, PublicKeyBytes_eq, RekeyId,
}
use e2e_chat_rs.ChatCore.Event.{
  WireEvent, client_hello, peer_key, encrypted_message, ack, error, EncryptedEnvelope,
  SessionPayload, chat, rekey_request, rekey_response,
}
use e2e_chat_rs.ChatCore.Crypto.Primitives.{Bytes, Primitives}
use e2e_chat_rs.ChatCore.Crypto.Info.{fingerprint}
use e2e_chat_rs.ChatCore.Crypto.Session.{
  CryptoError, CryptoSession, SessionMethod, KeyPair, generate, is_some, is_rekey_in_progress,
}
use e2e_chat_rs.ChatCore.Crypto.Session
use e2e_chat_rs.ChatCore.Crypto.Rekey
use e2e_chat_rs.ChatCore.Crypto.Rekey.{commit_staged_rekey, handle_session_payload}
use e2e_chat_rs.ChatClient.Texts.{trim, to_lowercase}

pub data InboundEvent : Type 0 where
  chat_text : List ℕ → InboundEvent
  rekey_completed : (epoch : ℕ) → InboundEvent

pub record InboundOutcome : Type 0 where
  pub event : Option InboundEvent
  pub reply_event : Option WireEvent

abbrev pub no_outcome : InboundOutcome
no_outcome = record { event = none; reply_event = none }

pub data ClientSessionError : Type 0 where
  missing_peer_key unexpected_peer_key : ClientSessionError
  peer_key_fingerprint_mismatch unexpected_session_payload : ClientSessionError
  crypto : CryptoError → ClientSessionError

pub record ClientSession : Type 0 where
  pub local_id : ClientId
  pub peer_id : ClientId
  pub keypair : KeyPair
  pub peer_public_key : Option PublicKeyBytes
  pub crypto_session : Option CryptoSession
  pub expected_peer_fingerprint : Option (List ℕ)
  pub auto_rekey_after : Option ℕ  -- u32
  pub outbound_since_rekey : ℕ  -- u32

abbrev pub ClientMethod : Type 0 → Type 0
ClientMethod A = Method ClientSession ClientSessionError A

-- The values that a call draws at random, if it comes to that.
pub record Draws : Type 0 where
  pub message_id : MessageId
  pub rekey_id : RekeyId
  pub ephemeral_secret : Bytes
  pub rekey_message_id : MessageId

abbrev pub set_auto_rekey_after : ℕ → ClientSession → ClientSession
set_auto_rekey_after threshold c = record c { auto_rekey_after = some threshold }

unfoldable pub expect_peer_fingerprint :
    (lower : ℕ → List ℕ) → List ℕ → ClientSession → ClientSession
expect_peer_fingerprint lower pinned c = record c {
  expected_peer_fingerprint = some (to_lowercase lower (trim pinned));
}

abbrev pub client_hello_event : ClientSession → WireEvent
client_hello_event c = client_hello c.local_id c.keypair.public_key

abbrev pub peer_key_event : ClientSession → WireEvent
peer_key_event c = peer_key c.local_id c.peer_id c.keypair.public_key

abbrev pub is_ready : ClientSession → Bool
is_ready c = is_some c.crypto_session

-- `self.crypto_session.as_mut().ok_or(MissingPeerKey)?`, a method of it, and `?` on its result
unfoldable pub with_session : {A : Type 0} → SessionMethod A → ClientMethod A
with_session m c = elim c.crypto_session [
  | none ↦ (err missing_peer_key, c)
  | some s ↦ elim (m s).0 [
    | ok a ↦ (ok a, record c { crypto_session = some (m s).1 })
    | err e ↦ (err (crypto e), record c { crypto_session = some (m s).1 })
  ]
]

module _ (prim : Primitives) where
  -- `ClientSession::new`, at the secret key that it draws
  unfoldable pub new : ClientId → ClientId → Bytes → ClientSession
  new local_id peer_id secret = record {
    local_id = local_id;
    peer_id = peer_id;
    keypair = generate prim secret;
    peer_public_key = none;
    crypto_session = none;
    expected_peer_fingerprint = none;
    auto_rekey_after = none;
    outbound_since_rekey = 0;
  }

  unfoldable pub peer_fingerprint : ClientSession → Option (List ℕ)
  peer_fingerprint c = elim c.peer_public_key [
    | none ↦ none
    | some key ↦ some (fingerprint prim key)
  ]

  unfoldable pub encrypt_payload : MessageId → SessionPayload → ClientMethod WireEvent
  encrypt_payload message_id payload = do
    envelope ← with_session (Rekey.encrypt_payload prim message_id payload)
    pure (encrypted_message envelope)

  unfoldable pub start_rekey : Draws → ClientMethod WireEvent
  start_rekey draws = do
    payload ← with_session (Rekey.start_rekey prim draws.rekey_id draws.ephemeral_secret)
    encrypt_payload draws.rekey_message_id payload

  -- `self.crypto_session.as_ref().is_some_and(CryptoSession::is_rekey_in_progress)`
  abbrev in_progress : ClientSession → Bool
  in_progress c = elim c.crypto_session [ none ↦ false | some s ↦ is_rekey_in_progress s ]

  -- The part of `encrypt_line` behind the chat envelope `event`.
  unfoldable pub count_outbound : WireEvent → Draws → Option ℕ → ClientMethod (List WireEvent)
  count_outbound event draws none = pure (event ∷ [])
  count_outbound event draws (some threshold) = do
    modify (λ c. record c { outbound_since_rekey = add_u32 c.outbound_since_rekey 1 })
    due ← gets (λ c. leb threshold c.outbound_since_rekey && not (in_progress c))
    if due then (do request ← start_rekey draws; pure (event ∷ request ∷ [])) else pure (event ∷ [])

  unfoldable pub encrypt_line : List ℕ → Draws → ClientMethod (List WireEvent)
  unfolding count_outbound
  encrypt_line line draws = do
    event ← encrypt_payload draws.message_id (chat line)
    threshold ← gets (λ c. c.auto_rekey_after)
    count_outbound event draws threshold

  -- `let Some(reply) = … else { return Err(UnexpectedSessionPayload) }`, the reply under the old
  -- epoch, and then the rotation
  unfoldable pub send_reply : MessageId → Option SessionPayload → ClientMethod InboundOutcome
  send_reply message_id none = raise unexpected_session_payload
  send_reply message_id (some reply) = do
    reply_envelope ← with_session (Rekey.encrypt_payload prim message_id reply)
    with_session commit_staged_rekey
    pure (record { event = none; reply_event = some (encrypted_message reply_envelope) })

  unfoldable pub on_payload : SessionPayload → Draws → ClientMethod InboundOutcome
  unfolding send_reply
  on_payload (chat words) draws =
      pure (record { event = some (chat_text words); reply_event = none })
  on_payload (rekey_request id key) draws = do
    reply ← with_session (handle_session_payload prim (rekey_request id key) draws.ephemeral_secret)
    send_reply draws.message_id reply
  on_payload (rekey_response id key) draws = do
    with_session (handle_session_payload prim (rekey_response id key) draws.ephemeral_secret)
    modify (λ c. record c { outbound_since_rekey = 0 })
    epoch ← with_session (gets (λ s. s.epoch))
    pure (record { event = some (rekey_completed epoch); reply_event = none })

  unfoldable pub handle_encrypted_message : EncryptedEnvelope → Draws → ClientMethod InboundOutcome
  unfolding on_payload
  handle_encrypted_message envelope draws = do
    payload ← with_session (Rekey.decrypt_payload prim envelope)
    on_payload payload draws

  -- `if let Some(expected) = … && fingerprint(&public_key) != *expected`
  abbrev is_pinned_elsewhere : Option (List ℕ) → PublicKeyBytes → Bool
  is_pinned_elsewhere none public_key = false
  is_pinned_elsewhere (some expected) public_key = fingerprint prim public_key != expected

  unfoldable pub accept_peer_key :
      Option PublicKeyBytes → PublicKeyBytes → ClientMethod InboundOutcome
  accept_peer_key (some peer_public_key) public_key c =
      if peer_public_key == public_key then (ok no_outcome, c) else (err unexpected_peer_key, c)
  accept_peer_key none public_key c =
      if is_pinned_elsewhere c.expected_peer_fingerprint public_key
      then (err peer_key_fingerprint_mismatch, c)
      else (
        ok no_outcome,
        record c {
          peer_public_key = some public_key;
          crypto_session = some (Session.new prim c.keypair public_key c.local_id c.peer_id);
        },
      )

  unfoldable pub handle_event : WireEvent → Draws → ClientMethod InboundOutcome
  unfolding accept_peer_key handle_encrypted_message
  handle_event (peer_key from to public_key) draws c =
      if from != c.peer_id || to != c.local_id
      then (err unexpected_peer_key, c)
      else accept_peer_key c.peer_public_key public_key c
  handle_event (encrypted_message envelope) draws c = handle_encrypted_message envelope draws c
  handle_event _ draws c = (ok no_outcome, c)
