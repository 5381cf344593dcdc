-- ===== src/ChatClient/Session/PeerKey.antt =====
-- The key of the peer in session.rs: what each operation of a client does to it.
use e2e_chat_rs.Prelude.{
  ℕ, ◌≡◌, refl, Option, some, none, List, ok, arith, ◌>>=◌, ◌∙◌, sym, Result-cases, inl, inr, ap,
}
use e2e_chat_rs.ChatCore.Types.{MessageId, PublicKeyBytes}
use e2e_chat_rs.ChatCore.Event.{
  EncryptedEnvelope, WireEvent, peer_key, encrypted_message, SessionPayload, chat, rekey_request,
  rekey_response,
}
use e2e_chat_rs.ChatCore.Crypto.Primitives.{Primitives}
use e2e_chat_rs.ChatCore.Crypto.Rekey
use e2e_chat_rs.ChatCore.Crypto.Rekey.{commit_staged_rekey, handle_session_payload}
use e2e_chat_rs.ChatCore.Crypto.Info.{fingerprint}
use e2e_chat_rs.ChatCore.Crypto.Session.{SessionMethod, is_some}
use e2e_chat_rs.ChatClient.Session.{
  ClientSession, ClientMethod, Draws, is_ready, with_session, encrypt_payload, start_rekey,
  count_outbound, encrypt_line, send_reply, on_payload, handle_encrypted_message, accept_peer_key,
  handle_event, add_u32,
}

-- What only a peer key changes.
pub record SamePeer (c d : ClientSession) : Type 0 where
  pub key : d.peer_public_key ≡ c.peer_public_key
  pub pin : d.expected_peer_fingerprint ≡ c.expected_peer_fingerprint
  pub ready : is_ready d ≡ is_ready c

SamePeer-trans : (c d e : ClientSession) → SamePeer c d → SamePeer d e → SamePeer c e
SamePeer-trans c d e p q = record {
  key = q.key ∙ p.key;
  pin = q.pin ∙ p.pin;
  ready = q.ready ∙ p.ready;
}

abbrev pub KeepsPeer : {A : Type 0} → ClientMethod A → Type 0
KeepsPeer m = (c : ClientSession) → SamePeer c (m c).1

bind-KeepsPeer :
    {A B : Type 0} (m : ClientMethod A) (f : A → ClientMethod B)
    → KeepsPeer m
    → ((a : A) → KeepsPeer (f a))
    → KeepsPeer (m >>= f)
bind-KeepsPeer m f km kf c = elim (Result-cases (m c).0) [
  | inl (a, e) ↦ rw e (SamePeer-trans c (m c).1 (f a (m c).1).1 (km c) (kf a (m c).1))
  | inr (x, e) ↦ rw e (km c)
]

with_session-KeepsPeer : {A : Type 0} (m : SessionMethod A) → KeepsPeer (with_session m)
unfolding with_session
with_session-KeepsPeer m c = ground arith

SamePeer-refl : (c : ClientSession) → SamePeer c c
SamePeer-refl c = record { key = refl; pin = refl; ready = refl }

module _ (prim : Primitives) where
  encrypt_payload-KeepsPeer :
      (id : MessageId) (payload : SessionPayload) → KeepsPeer (encrypt_payload prim id payload)
  unfolding encrypt_payload
  encrypt_payload-KeepsPeer id payload =
      bind-KeepsPeer _ _ (with_session-KeepsPeer _) (λ envelope. SamePeer-refl)

  pub start_rekey-KeepsPeer : (draws : Draws) → KeepsPeer (start_rekey prim draws)
  unfolding start_rekey
  start_rekey-KeepsPeer draws =
      bind-KeepsPeer _ _ (with_session-KeepsPeer _) (λ payload. encrypt_payload-KeepsPeer _ payload)

  count_outbound-KeepsPeer :
      (event : WireEvent) (draws : Draws) (threshold : Option ℕ)
      → KeepsPeer (count_outbound prim event draws threshold)
  unfolding count_outbound
  count_outbound-KeepsPeer event draws none c = SamePeer-refl c
  count_outbound-KeepsPeer event draws (some threshold) c =
      let counted : ClientSession = record c {
        outbound_since_rekey = add_u32 c.outbound_since_rekey 1;
      } in
      ground (arith, start_rekey-KeepsPeer draws counted)

  pub encrypt_line-KeepsPeer :
      (line : List ℕ) (draws : Draws) → KeepsPeer (encrypt_line prim line draws)
  unfolding encrypt_line
  encrypt_line-KeepsPeer line draws =
      bind-KeepsPeer (encrypt_payload prim draws.message_id (chat line))
        (λ event c. count_outbound prim event draws c.auto_rekey_after c)
        (encrypt_payload-KeepsPeer draws.message_id (chat line))
        (λ event c. count_outbound-KeepsPeer event draws c.auto_rekey_after c)

  send_reply-KeepsPeer :
      (id : MessageId) (reply : Option SessionPayload) → KeepsPeer (send_reply prim id reply)
  unfolding send_reply
  send_reply-KeepsPeer id none c = record { key = refl; pin = refl; ready = refl }
  send_reply-KeepsPeer id (some reply) c =
      let sealing = Rekey.encrypt_payload prim id reply in
      ground (
        arith,
        with_session-KeepsPeer sealing c,
        with_session-KeepsPeer commit_staged_rekey (with_session sealing c).1,
      )

  on_payload-KeepsPeer :
      (payload : SessionPayload) (draws : Draws) → KeepsPeer (on_payload prim payload draws)
  unfolding on_payload
  on_payload-KeepsPeer (chat words) draws c = SamePeer-refl c
  on_payload-KeepsPeer (rekey_request id key) draws c =
      bind-KeepsPeer
        (with_session (handle_session_payload prim (rekey_request id key) draws.ephemeral_secret))
        (send_reply prim draws.message_id) (with_session-KeepsPeer _)
        (send_reply-KeepsPeer draws.message_id) c
  on_payload-KeepsPeer (rekey_response id key) draws c =
      let m =
        with_session (handle_session_payload prim (rekey_response id key) draws.ephemeral_secret) in
      let d : ClientSession = record ((m c).1) { outbound_since_rekey = 0 } in
      ground (
        arith,
        with_session-KeepsPeer
            (handle_session_payload prim (rekey_response id key) draws.ephemeral_secret) c,
        with_session-KeepsPeer {A = ℕ} (λ s. (ok s.epoch, s)) d,
      )

  handle_encrypted_message-KeepsPeer :
      (envelope : EncryptedEnvelope) (draws : Draws)
      → KeepsPeer (handle_encrypted_message prim envelope draws)
  unfolding handle_encrypted_message
  handle_encrypted_message-KeepsPeer envelope draws =
      bind-KeepsPeer _ _ (with_session-KeepsPeer _) (λ payload. on_payload-KeepsPeer payload draws)

  -- Whoever a client has a session with, it has that peer's key, and a pinned key is the key.
  pub record IsSound (c : ClientSession) : Type 0 where
    pub ready : is_ready c ≡ is_some c.peer_public_key
    pub pinned :
        (key : PublicKeyBytes) (pin : List ℕ)
        → c.peer_public_key ≡ some key
        → c.expected_peer_fingerprint ≡ some pin
        → fingerprint prim key ≡ pin

  pub SamePeer-IsSound : (c d : ClientSession) → SamePeer c d → IsSound c → IsSound d
  SamePeer-IsSound c d same sound = record {
    ready = same.ready ∙ sound.ready ∙ ap is_some (sym same.key);
    pinned = λ key pin h p. sound.pinned key pin (sym same.key ∙ h) (sym same.pin ∙ p);
  }

  pub handle_event-IsSound :
      (event : WireEvent) (draws : Draws) (c : ClientSession)
      → IsSound c
      → IsSound (handle_event prim event draws c).1
  unfolding handle_event accept_peer_key
  handle_event-IsSound (encrypted_message envelope) draws c sound =
      SamePeer-IsSound c _ (handle_encrypted_message-KeepsPeer envelope draws c) sound
  handle_event-IsSound (peer_key from to key) draws c sound = record {
    ready = ground (arith, sound.ready);
    pinned = λ k pin h p. ground (arith, sound.pinned k pin);
  }
  handle_event-IsSound _ draws c sound = sound

  pub handle_event-keeps_key :
      (event : WireEvent) (draws : Draws) (c : ClientSession) (key : PublicKeyBytes)
      → c.peer_public_key ≡ some key
      → (handle_event prim event draws c).1.peer_public_key ≡ some key
  unfolding handle_event accept_peer_key
  handle_event-keeps_key (encrypted_message envelope) draws c key h =
      (handle_encrypted_message-KeepsPeer envelope draws c).key ∙ h
  handle_event-keeps_key (peer_key from to k) draws c key h = ground arith
  handle_event-keeps_key _ draws c key h = h
