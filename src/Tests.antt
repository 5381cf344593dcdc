-- ===== src/Tests.antt =====
-- Concrete inputs: tests of the definitions, and instances of the theorems.
mod Toy
pub mod Core
mod Wire
pub mod Clients
mod Relay
mod Interleaving
mod Arrivals
pub mod Chats
mod Relayed
mod Crossings
mod Denials
mod Overflow
mod Terminals
mod Dialogues
mod Separation
mod Programs
pub mod Units
