-- ===== src/ChatClient/Session/Pinning.antt =====
-- Histories of a client of session.rs, and the key of its peer.
use e2e_chat_rs.Prelude.{ℕ, ◌≡◌, refl, some, List, [], ◌∷◌, ◌∙◌}
use e2e_chat_rs.ChatCore.Types.{ClientId, PublicKeyBytes}
use e2e_chat_rs.ChatCore.Event.{WireEvent}
use e2e_chat_rs.ChatCore.Crypto.Primitives.{Bytes, Primitives}
use e2e_chat_rs.ChatClient.Session.{
  ClientSession, Draws, handle_event, encrypt_line, start_rekey, new, expect_peer_fingerprint,
}
use e2e_chat_rs.ChatClient.Session.PeerKey.{
  IsSound, SamePeer-IsSound, handle_event-IsSound, handle_event-keeps_key, encrypt_line-KeepsPeer,
  start_rekey-KeepsPeer,
}

-- A call on a client, with the values that it draws at random.
pub data Use : Type 0 where
  hears : (event : WireEvent) (draws : Draws) → Use
  says : (line : List ℕ) (draws : Draws) → Use
  rotates : (draws : Draws) → Use

module _ (prim : Primitives) where
  unfoldable pub after : Use → ClientSession → ClientSession
  after (hears event draws) c = (handle_event prim event draws c).1
  after (says line draws) c = (encrypt_line prim line draws c).1
  after (rotates draws) c = (start_rekey prim draws c).1

  unfoldable pub after_all : List Use → ClientSession → ClientSession
  after_all [] c = c
  after_all (u ∷ us) c = after_all us (after u c)

  after-IsSound : (u : Use) (c : ClientSession) → IsSound prim c → IsSound prim (after u c)
  unfolding after
  after-IsSound (hears event draws) c sound = handle_event-IsSound prim event draws c sound
  after-IsSound (says line draws) c sound =
      SamePeer-IsSound prim c _ (encrypt_line-KeepsPeer prim line draws c) sound
  after-IsSound (rotates draws) c sound =
      SamePeer-IsSound prim c _ (start_rekey-KeepsPeer prim draws c) sound

  after-keeps_key :
      (u : Use) (c : ClientSession) (key : PublicKeyBytes)
      → c.peer_public_key ≡ some key
      → (after u c).peer_public_key ≡ some key
  unfolding after
  after-keeps_key (hears event draws) c key h = handle_event-keeps_key prim event draws c key h
  after-keeps_key (says line draws) c key h = (encrypt_line-KeepsPeer prim line draws c).key ∙ h
  after-keeps_key (rotates draws) c key h = (start_rekey-KeepsPeer prim draws c).key ∙ h

  -- Over any history of events, lines and rekeys, a client that is sound stays sound: it has a
  -- session exactly when it has a key of its peer, and with a pinned fingerprint that key has it.
  -- A key that it has is never replaced.
  pub peer_key_stays :
      (us : List Use) (c : ClientSession)
      → IsSound prim c
      → IsSound prim (after_all us c)
        × ((key : PublicKeyBytes)
            → c.peer_public_key ≡ some key
            → (after_all us c).peer_public_key ≡ some key)
  unfolding after_all
  peer_key_stays [] c sound = (sound, λ key h. h)
  peer_key_stays (u ∷ us) c sound =
      let rest = peer_key_stays us (after u c) (after-IsSound u c sound) in
      (rest.0, λ key h. rest.1 key (after-keeps_key u c key h))

  -- A client as it starts, with a pinned fingerprint or without.
  pub new-IsSound :
      (local_id peer_id : ClientId) (secret : Bytes)
      → IsSound prim (new prim local_id peer_id secret)
  unfolding new
  new-IsSound local_id peer_id secret = record { ready = refl; pinned = λ key pin h p. cc }

  pub expect_peer_fingerprint-IsSound :
      (lower : ℕ → List ℕ) (pin : List ℕ) (local_id peer_id : ClientId) (secret : Bytes)
      → IsSound prim (expect_peer_fingerprint lower pin (new prim local_id peer_id secret))
  unfolding new expect_peer_fingerprint
  expect_peer_fingerprint-IsSound lower pin local_id peer_id secret = record {
    ready = refl;
    pinned = λ key pin h p. cc;
  }
