-- ===== src/ChatClient/Session/KeyExchange.antt =====
-- The exchange of public keys between two clients of session.rs.
use e2e_chat_rs.Prelude.{ℕ, ◌≡◌, some, none, ok, arith, Option-cases, inl, inr}
use e2e_chat_rs.ChatCore.Types.{ClientId, PublicKeyBytes}
use e2e_chat_rs.ChatCore.Crypto.Primitives.{Bytes, Primitives, DhAgrees}
use e2e_chat_rs.ChatCore.Crypto.Info.{fingerprint}
use e2e_chat_rs.ChatCore.Crypto.Session.{CryptoSession, generate}
use e2e_chat_rs.ChatCore.Crypto.Session
use e2e_chat_rs.ChatCore.Crypto.Linked.{Linked}
use e2e_chat_rs.ChatCore.Crypto.Phases.{IsIdle}
use e2e_chat_rs.ChatCore.Crypto.Agreement.{new-Linked}
use e2e_chat_rs.ChatClient.Session.{
  ClientSession, Draws, no_outcome, handle_event, accept_peer_key, peer_key_event, List,
}

-- A client that waits for the key of its peer, with a pin that the key has, if any.
pub record Awaits (prim : Primitives) (c : ClientSession) (local_id peer_id : ClientId)
    (secret : Bytes) (peer_key : PublicKeyBytes) : Type 0 where
  pub local : c.local_id ≡ local_id
  pub peer : c.peer_id ≡ peer_id
  pub keys : c.keypair ≡ generate prim secret
  pub waits : c.peer_public_key ≡ none
  pub pinned :
      (pin : List ℕ) → c.expected_peer_fingerprint ≡ some pin → fingerprint prim peer_key ≡ pin

-- The client once it has taken the key.
abbrev pub keyed : ClientSession → PublicKeyBytes → CryptoSession → ClientSession
keyed c key s = record c { peer_public_key = some key; crypto_session = some s }

module _ (prim : Primitives) where
  pub take_key :
      (c d : ClientSession) (id peer : ClientId) (own other : Bytes) (draws : Draws)
      → Awaits prim c id peer own (generate prim other).public_key
      → Awaits prim d peer id other (generate prim own).public_key
      → handle_event prim (peer_key_event d) draws c ≡ (
        ok no_outcome,
        keyed c
            (generate prim other).public_key
            (Session.new prim (generate prim own) (generate prim other).public_key id peer),
      )
  unfolding handle_event accept_peer_key
  take_key c d id peer own other draws wc wd = elim (Option-cases c.expected_peer_fingerprint) [
    | inl e ↦ ground (arith, wc.local, wc.peer, wc.keys, wc.waits, wd.local, wd.peer, wd.keys)
    | inr (pin, e) ↦
        ground
          (arith, wc.local, wc.peer, wc.keys, wc.waits, wc.pinned pin e, wd.local, wd.peer, wd.keys)
  ]

  -- Two clients that wait for the key of each other, each with no pinned fingerprint or with that
  -- of the other, take the announced keys without an outcome, store them, and open sessions that
  -- are linked and have no rekey under way. The two ends of a Diffie-Hellman exchange agree.
  pub exchange_keys :
      DhAgrees prim
      → (c d : ClientSession) (alice bob : ClientId) (ka kb : Bytes) (x y : Draws)
      → Awaits prim c alice bob ka (generate prim kb).public_key
      → Awaits prim d bob alice kb (generate prim ka).public_key
      → (a : CryptoSession) × (b : CryptoSession) × (handle_event prim (peer_key_event d) x c
          ≡ (ok no_outcome, keyed c d.keypair.public_key a))
        × (handle_event prim (peer_key_event c) y d
            ≡ (ok no_outcome, keyed d c.keypair.public_key b))
        × Linked a b
        × IsIdle a
        × IsIdle b
  exchange_keys agrees c d alice bob ka kb x y wc wd =
      let start = new-Linked prim agrees ka kb alice bob in
      (
        Session.new prim (generate prim ka) (generate prim kb).public_key alice bob,
        Session.new prim (generate prim kb) (generate prim ka).public_key bob alice,
        ground (arith, take_key c d alice bob ka kb x wc wd, wd.keys),
        ground (arith, take_key d c bob alice kb ka y wd wc, wc.keys),
        start.0,
        start.1,
        start.2,
      )
