-- ===== src/Lib.antt =====
-- A chat of two peers with end-to-end encryption, over a relay that never sees plain text.
--
-- Parts of the program:
--   crates/chat-core    identifiers, wire events, the relay's traits, and CryptoSession: a session of
--                       two peers with nonces, replay protection, epochs and a rekey handshake.
--   crates/chat-client  ClientSession, which opens a CryptoSession when the peer's key arrives and
--                       maps lines and events to it, and the program around it.
--   crates/chat-server  InMemoryRouter, an outbox for each connected client, and the connections
--                       that feed it and flush it.
-- A line typed at one client is sealed by its ClientSession, sent as an event to the relay, queued
-- by the router in the outbox of the recipient, flushed into the recipient's channel, and opened by
-- the recipient's ClientSession. Rekey requests and responses travel as sealed payloads the same way.
--
-- Modules:
--   Prelude             names, lists, results with state, association lists, machine words
--   ChatCore.Types      types.rs, with Types.Parsing on ClientId::parse and Types.Wire, the base64
--                       forms of the byte types
--   ChatCore.Nonce      nonce.rs
--   ChatCore.Event      event.rs, with Event.Codes, the wire form of RelayErrorCode
--   ChatCore.Service    service.rs
--   ChatCore.Crypto     crypto.rs: Primitives (the libraries, as parameters), Info (session_info,
--                       nonce_prefix, fingerprint), Session (the state), Cipher (encrypt, decrypt),
--                       Rekey (the handshake). Runs has histories of calls, OutboundNonces, Marks
--                       Replay and Bounds are about them, Refusal about a call that fails, Overflow
--                       about a build with overflow checks; Delivery, Linked, Phases, Handshake,
--                       Agreement, Tampering, InFlight and Crossing are about two sessions, and
--                       Separation about what tells sessions apart.
--   ChatClient.Texts    trimming and lower case, as the client uses them
--   ChatClient.Session  session.rs, with Session.KeyExchange, Session.Chatting and Session.AutoRekey
--                       on two clients that meet and talk, Session.Rotation on a whole rekey,
--                       Session.Dialogue, with its Turns, Lines and Heard, on whole dialogues,
--                       and Session.PeerKey and Session.Pinning on the key of the peer
--   ChatClient.Main     main.rs: Main has the helpers and the turns that the client starts,
--                       Main.Inbound has the messages that it receives and the loop;
--                       Main.Fingerprint is about what is shown and pinned, Main.Meeting about two
--                       programs that start, Main.Surviving about what comes from the socket
--   ChatServer.Router   router.rs, with Router.Contract, the specification of a router, and
--                       Router.Delivery on its histories
--   ChatServer.Ws       ws.rs: the shared state and the steps on it, Ws.Socket the task of one
--                       connection and its writer, Ws.Serving the server around them, with main.rs;
--                       Ws.Tracking is on the connection map against the router, Ws.Presence, with
--                       its Whole, on who is connected after a connection, Ws.Takeover on an
--                       identity that is taken, Ws.Slow on a queue that is full, Ws.Bounded and
--                       Ws.Delivering on queues with room. Ws.System is all connections at the
--                       grain of their locks, with System.Changes and System.Ownership on what each
--                       step does to the identities, System.Race on a client that reconnects,
--                       System.Alone on a connection by itself, System.Authorizing on the lock of
--                       the authorization, and System.Resting and System.Progress on what a busy
--                       task does next. Ws.Addressed, with its Moves and Reached, is on whom the
--                       waiting events are for, Ws.Overtaking, with its Turns, Stages, Reordered
--                       and Stranded, on tasks in an unlucky order
--   Conversation        a line from one client through the relay to the other, and
--                       Conversation.Terminals from terminal to terminal
--   Tests               stand-ins for the libraries, and concrete runs; Tests.Units has the unit tests
--                       that stand in the source files and the integration tests of the relay, as
--                       statements about the model
--
-- How the code is modelled. A method with `&mut self` takes the state and returns its result with
-- the new state, also when it fails (Prelude.Results). A HashMap is an association list, of which
-- only the lookups matter; a HashSet is a list. u32 and u64 are natural numbers: the epoch and the
-- count of messages wrap as in a release build, the nonce counter is checked as the code checks it,
-- and Crypto.Overflow has decrypt as in a build with overflow checks, which panics where its test
-- of the epoch overflows. A text is the list of its code points, which are its bytes where it is
-- ASCII, as identifiers and labels are; a byte array is a list of numbers, and the lengths of fixed
-- arrays are not tracked. Loops are structural recursion over the inputs that arrive, so nothing
-- runs on fuel. The tasks of the relay are modelled twice: as functions on the shared state, each
-- of which runs without interruption, and as a relation whose steps hold the locks that the code
-- holds together, in any order of the tasks. Of the locks only that of the authorization is held
-- between two steps, from a denial until the rejection is sent; the others are taken and given back
-- within a step, the router's always before that of the connections, and are not part of the state.
-- A writer is a function on the events that it receives, and in the relation a step that takes one
-- from a channel; it may end at any time, and its receiver with it.
--
-- Not modelled: x25519, HKDF, the cipher, the hashes, serde, base64, tokio, axum and the sockets
-- are parameters or absent; what a theorem needs of them is a named hypothesis (Primitives:
-- NeverFails, DhAgrees, AeadRoundTrips, PayloadRoundTrips, AeadBinds, AssociatedDataInjective,
-- HkdfSeparates, which Tests.Toy meets; HashSeparates, IsPerHandle, IsReceived and IsBounded of
-- Ws.Bounded, of which the last holds while the receivers are there, PeerKeyRoundTrips, IsOpen, and
-- Talks of Conversation.Terminals, which other modules of Tests meet). The JSON that serde derives
-- for events is such a parameter. Logging, the timer of the client and its command line are left
-- out.
mod Prelude
pub mod ChatCore
pub mod ChatClient
pub mod ChatServer
pub mod Conversation
mod Tests
