-- ===== src/Tests/Terminals.antt =====
-- Two client programs and the relay between them, over sockets that keep what is sent.
use e2e_chat_rs.ChatServer.Router.Contract.{view, in_memory-Implements}
use e2e_chat_rs.ChatCore.Service.{noop_hook}
use e2e_chat_rs.ChatServer.Router.{in_memory}
use e2e_chat_rs.ChatClient.Session.{ClientSession}
use e2e_chat_rs.Prelude.{
  zero, suc, refl, arith, ℕ, ◌≡◌, true, Option, none, some, List, [], ◌∷◌, ◌++◌,
}
use e2e_chat_rs.ChatCore.Event.{WireEvent, encrypted_message, ack, EncryptedEnvelope}
use e2e_chat_rs.ChatCore.Crypto.Session.{new}
use e2e_chat_rs.Prelude.{bytes_discrete}
use e2e_chat_rs.ChatClient.Main.{Socket, Client}
use e2e_chat_rs.Conversation.Terminals.{Talks, Through, terminal_to_terminal}
use e2e_chat_rs.Tests.Toy.{
  toy, toy-NeverFails, toy-AeadRoundTrips, toy-PayloadRoundTrips, frame, split_at, split_at-append,
}
use e2e_chat_rs.Tests.Relayed.{queue, roomy, roomy-IsBounded, both, both-Connected, greeting}
use e2e_chat_rs.Tests.Clients.{alice_client, bob_client, draws}
use e2e_chat_rs.Tests.Core.{sessions-Linked, alice_session, bob_session}

write_message : EncryptedEnvelope → List ℕ
unfolding frame
write_message e =
    1
    ∷ e.message_id.uuid
    ∷ e.epoch
    ∷ frame e.sender.value (frame e.recipient.value (frame e.nonce.bytes e.ciphertext.bytes))

-- Messages and acknowledgements have a text of their own, and all other events another.
write_event : WireEvent → List ℕ
unfolding write_message
write_event (encrypted_message e) = write_message e
write_event (ack id) = 2 ∷ id.uuid ∷ []
write_event _ = 0 ∷ []

-- A part of the text with its length before it, and what follows.
unframe : List ℕ → List ℕ × List ℕ
unfolding split_at
unframe [] = ([], [])
unframe (n ∷ rest) = split_at n rest

unframe-frame : (xs rest : List ℕ) → unframe (frame xs rest) ≡ (xs, rest)
unfolding unframe frame
unframe-frame xs rest = split_at-append xs rest

read_message : ℕ → ℕ → List ℕ → EncryptedEnvelope
unfolding unframe
read_message uuid epoch raw = record {
  sender = record { value = (unframe raw).0 };
  recipient = record { value = (unframe (unframe raw).1).0 };
  message_id = record { uuid = uuid };
  epoch = epoch;
  nonce = record { bytes = (unframe (unframe (unframe raw).1).1).0 };
  ciphertext = record { bytes = (unframe (unframe (unframe raw).1).1).1 };
}

read_event : List ℕ → Option WireEvent
unfolding read_message
read_event (suc zero ∷ uuid ∷ epoch ∷ rest) =
    some (encrypted_message (read_message uuid epoch rest))
read_event (suc (suc zero) ∷ uuid ∷ []) = some (ack (record { uuid = uuid }))
read_event _ = none

abbrev terminal_io : Socket (List (List ℕ))
terminal_io = record {
  connect = λ url. some [];
  to_string = λ event. some (write_event event);
  from_str = read_event;
  send = λ sent raw. (true, sent ++ raw ∷ []);
}

read_write : (e : EncryptedEnvelope) → read_event (write_message e) ≡ some (encrypted_message e)
unfolding write_message read_event read_message
read_write e = ground (
  arith,
  unframe-frame e.sender.value (frame e.recipient.value (frame e.nonce.bytes e.ciphertext.bytes)),
  unframe-frame e.recipient.value (frame e.nonce.bytes e.ciphertext.bytes),
  unframe-frame e.nonce.bytes e.ciphertext.bytes,
)

terminal_io-Talks : Talks terminal_io
unfolding write_event read_event
terminal_io-Talks = record {
  json = write_message;
  ack_json = λ id. 2 ∷ id.uuid ∷ [];
  writes = λ e. refl;
  reads = read_write;
  writes_ack = λ id. refl;
  reads_ack = λ id. refl;
  sends = λ w raw. refl;
}

abbrev program : ClientSession → Client (List (List ℕ))
program s = record { session = s; pinned_fingerprint = none; writer = []; terminal = [] }

terminal_to_terminal_example :
    Through toy
      (toy-NeverFails 1000)
      toy-AeadRoundTrips
      toy-PayloadRoundTrips
      in_memory
      noop_hook
      roomy
      queue
      roomy-IsBounded
      view
      in_memory-Implements
      terminal_io
      terminal_io-Talks
      terminal_io.send
      (λ w raw. refl)
      (program alice_client)
      (program bob_client)
      alice_session
      (draws 1 [])
      (draws 2 [])
      (draws 3 [])
      greeting
      both
      0
      1
      []
      []
unfolding toy toy-NeverFails new bytes_discrete
terminal_to_terminal_example =
    terminal_to_terminal toy (toy-NeverFails 1000) toy-AeadRoundTrips toy-PayloadRoundTrips
      in_memory noop_hook roomy queue roomy-IsBounded view in_memory-Implements terminal_io
      terminal_io-Talks terminal_io.send (λ w raw. refl) (program alice_client) (program bob_client)
      alice_session bob_session (draws 1 []) (draws 2 []) (draws 3 []) greeting both 0 1 [] [] refl
      refl refl refl refl sessions-Linked.0 (omega arith) (omega arith) both-Connected
