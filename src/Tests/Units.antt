-- ===== src/Tests/Units.antt =====
-- The unit tests that stand in the source files, as statements about the model, and their proofs.
-- `expect` and `assert_eq!` are equations, in the order of the test; a random draw is any value.
pub mod Router
pub mod Relay
mod Sockets
mod Identifiers
mod ByteForms
mod Terminal
pub mod Sessions
mod Conversations
