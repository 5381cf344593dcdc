-- ===== src/ChatClient/Main/Meeting.antt =====
-- How main.rs answers the public key of the peer.
use e2e_chat_rs.ChatCore.Crypto.Agreement.{new-Linked}
use e2e_chat_rs.ChatCore.Crypto.Linked.{Linked}
use e2e_chat_rs.ChatCore.Crypto.Primitives.{DhAgrees}
use e2e_chat_rs.ChatCore.Types.{PublicKeyBytes}
use e2e_chat_rs.ChatCore.Crypto.Info.{fingerprint}
use e2e_chat_rs.Prelude.{some, [], ◌∷◌, ◌++◌, ok, arith, true, ◌≡◌}
use e2e_chat_rs.ChatCore.Crypto.Session.{generate, CryptoSession}
use e2e_chat_rs.ChatCore.Crypto.Session
use e2e_chat_rs.ChatClient.Session.{peer_fingerprint, peer_key_event, handle_event, accept_peer_key}
use e2e_chat_rs.ChatClient.Session.KeyExchange.{Awaits, keyed, take_key}
use e2e_chat_rs.ChatClient.Main.{
  Socket, Client, text_message, goes_on, send_event, needs_peer_key_reply, control_status,
  Primitives, ClientSession, ClientId, Bytes, Draws, List, ℕ, is_ready, false, peer_key,
}
use e2e_chat_rs.ChatClient.Main.Inbound.{on_message, fingerprint_line}

-- The announcement of a key is read back from its JSON.
abbrev pub PeerKeyRoundTrips : {W : Type 0} → Socket W → Type 0
PeerKeyRoundTrips io =
    (from to : ClientId) (key : PublicKeyBytes) (payload : List ℕ)
    → io.to_string (peer_key from to key) ≡ some payload
    → io.from_str payload ≡ some (peer_key from to key)

module _ {W : Type 0} (io : Socket W) (prim : Primitives) where
  -- A client without a session opens one, shows the fingerprint, and sends its own key back.
  peer_key_answered :
      (c : Client W) (d : ClientSession) (id peer : ClientId) (own other : Bytes) (draws : Draws)
      (payload reply : List ℕ)
      → Awaits prim c.session id peer own (generate prim other).public_key
      → Awaits prim d peer id other (generate prim own).public_key
      → is_ready c.session ≡ false
      → io.from_str payload ≡ some (peer_key_event d)
      → io.to_string (peer_key_event c.session) ≡ some reply
      → (io.send c.writer reply).0 ≡ true
      → on_message io prim (text_message payload) draws c ≡ (
        ok goes_on,
        record c {
          session =
              keyed
                (c.session)
                (generate prim other).public_key
                (Session.new prim (generate prim own) (generate prim other).public_key id peer);
          writer = (io.send c.writer reply).1;
          terminal =
              c.terminal
              ++ fingerprint_line io prim c.pinned_fingerprint
                  (fingerprint prim (generate prim other).public_key)
                ∷ [];
        },
      )
  unfolding on_message send_event needs_peer_key_reply control_status peer_fingerprint
  peer_key_answered c d id peer own other draws payload reply wc wd waits decoded encoded sent =
      ground (
        arith,
        decoded,
        encoded,
        sent,
        waits,
        take_key prim c.session d id peer own other draws wc wd,
      )

  -- A client with a session stays as it is when it hears the same key again.
  peer_key_settles :
      (c : Client W) (key : PublicKeyBytes) (draws : Draws) (payload : List ℕ)
      → is_ready c.session ≡ true
      → c.session.peer_public_key ≡ some key
      → io.from_str payload ≡ some (peer_key c.session.peer_id c.session.local_id key)
      → on_message io prim (text_message payload) draws c ≡ (ok goes_on, c)
  unfolding on_message needs_peer_key_reply control_status handle_event accept_peer_key
  peer_key_settles c key draws payload ready known decoded = ground (arith, decoded, ready, known)

  -- Two client programs that wait for the key of each other and hear its announcement open
  -- sessions that are linked and send their own announcement once more; when that is heard by the
  -- one who is ready by then, it changes nothing and sends nothing, so that the exchange ends. A
  -- pinned fingerprint, if any, is that of the other, the two ends of a Diffie-Hellman exchange
  -- agree, an announcement is read back from its JSON, and the sockets take what is sent.
  pub programs_meet :
      DhAgrees prim
      → PeerKeyRoundTrips io
      → ((w : W) (payload : List ℕ) → (io.send w payload).0 ≡ true)
      → (c d : Client W) (alice bob : ClientId) (ka kb : Bytes) (x y z : Draws)
        (said_c said_d : List ℕ)
      → Awaits prim c.session alice bob ka (generate prim kb).public_key
      → Awaits prim d.session bob alice kb (generate prim ka).public_key
      → is_ready c.session ≡ false
      → is_ready d.session ≡ false
      → io.to_string (peer_key_event c.session) ≡ some said_c
      → io.to_string (peer_key_event d.session) ≡ some said_d
      → let c' = on_message io prim (text_message said_d) x c in
        let d' = on_message io prim (text_message said_c) y d in
        (a : CryptoSession) × (b : CryptoSession) × (c'.0 ≡ ok goes_on)
        × (d'.0 ≡ ok goes_on)
        × (c'.1.session.crypto_session ≡ some a)
        × (d'.1.session.crypto_session ≡ some b)
        × Linked a b
        × (c'.1.writer ≡ (io.send c.writer said_c).1)
        × (d'.1.writer ≡ (io.send d.writer said_d).1)
        × (on_message io prim (text_message said_d) z c'.1 ≡ (ok goes_on, c'.1))
  programs_meet agrees reads sends c d alice bob ka kb x y z said_c said_d wc wd c_waits d_waits ec
        ed =
      let c' =
        peer_key_answered c d.session alice bob ka kb x said_d said_c wc wd c_waits
          (reads d.session.local_id d.session.peer_id d.session.keypair.public_key said_d ed) ec
          (sends c.writer said_c) in
      let d' =
        peer_key_answered d c.session bob alice kb ka y said_c said_d wd wc d_waits
          (reads c.session.local_id c.session.peer_id c.session.keypair.public_key said_c ec) ed
          (sends d.writer said_d) in
      let settled =
        peer_key_settles (on_message io prim (text_message said_d) x c).1
          (generate prim kb).public_key z said_d (ground (arith, c')) (ground (arith, c'))
          (ground (
            arith,
            c',
            reads d.session.local_id d.session.peer_id d.session.keypair.public_key said_d ed,
            wc.local,
            wc.peer,
            wd.local,
            wd.peer,
            wd.keys,
          )) in
      (
        Session.new prim (generate prim ka) (generate prim kb).public_key alice bob,
        Session.new prim (generate prim kb) (generate prim ka).public_key bob alice,
        ground (arith, c'),
        ground (arith, d'),
        ground (arith, c'),
        ground (arith, d'),
        (new-Linked prim agrees ka kb alice bob).0,
        ground (arith, c'),
        ground (arith, d'),
        settled,
      )
