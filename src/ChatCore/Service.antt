-- ===== src/ChatCore/Service.antt =====
-- crates/chat-core/src/service.rs: the traits that the relay is generic over, and their errors.
use e2e_chat_rs.Prelude.{List, Result, ok}
use e2e_chat_rs.ChatCore.Types.{ClientId}
use e2e_chat_rs.ChatCore.Event.{WireEvent, RelayErrorCode}

pub data AuthError : Type 0 where
  connect_denied : AuthError

pub data RouterError : Type 0 where
  client_already_connected client_not_connected sender_mismatch : RouterError
  unknown_recipient unsupported_event : RouterError

-- A method with `&mut self` returns its result and the new state.
pub record MessageRouter (R : Type 0) : Type 0 where
  pub connect : R → ClientId → Result (Unit {0}) RouterError × R
  pub disconnect : R → ClientId → Result (Unit {0}) RouterError × R
  pub route : R → ClientId → WireEvent → Result (Unit {0}) RouterError × R
  pub drain_outbox : R → ClientId → List WireEvent × R

pub record EventHook (H : Type 0) : Type 0 where
  pub on_connect : H → ClientId → H
  pub on_disconnect : H → ClientId → H
  pub on_route_accepted : H → ClientId → WireEvent → H
  pub on_route_rejected : H → ClientId → WireEvent → RouterError → H

pub record AuthProvider (A : Type 0) : Type 0 where
  pub authorize_connect : A → ClientId → Result (Unit {0}) AuthError × A

pub data NoopAuthProvider : Type 0 where
  noop_auth_provider : NoopAuthProvider

abbrev pub noop_auth : AuthProvider NoopAuthProvider
noop_auth = record { authorize_connect = λ a _. (ok tt, a) }

pub data NoopEventHook : Type 0 where
  noop_event_hook : NoopEventHook

abbrev pub noop_hook : EventHook NoopEventHook
noop_hook = record {
  on_connect = λ h _. h;
  on_disconnect = λ h _. h;
  on_route_accepted = λ h _ _. h;
  on_route_rejected = λ h _ _ _. h;
}

-- `impl From<&RouterError> for RelayErrorCode`
unfoldable pub router_error_code : RouterError → RelayErrorCode
router_error_code sender_mismatch = RelayErrorCode.sender_mismatch
router_error_code unknown_recipient = RelayErrorCode.unknown_recipient
router_error_code unsupported_event = RelayErrorCode.unsupported_event
router_error_code client_not_connected = RelayErrorCode.client_not_connected
router_error_code client_already_connected = RelayErrorCode.client_already_connected

-- `impl From<&AuthError> for RelayErrorCode`
unfoldable pub auth_error_code : AuthError → RelayErrorCode
auth_error_code connect_denied = RelayErrorCode.connect_denied
