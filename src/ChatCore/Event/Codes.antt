-- ===== src/ChatCore/Event/Codes.antt =====
-- The wire form of `RelayErrorCode`.
use e2e_chat_rs.ChatCore.Types.Wire.{WireError, not_a_string}
use e2e_chat_rs.Prelude.{
  none, some, ok, err, Option, Result, ◌↔◌, ℕ, ◌≡◌, refl, List, text, ◌==◌, bytes_eq,
  bytes_discrete, if◌then◌else◌, arith, ◌∷◌, All, [], ◌≢◌, Option, Result, ok, ◌↔◌, err, some,
  subst,
}
use e2e_chat_rs.ChatCore.Event.{
  RelayErrorCode, sender_mismatch, unknown_recipient, unsupported_event, client_not_connected,
  client_already_connected, connect_denied, other,
}

unfoldable pub as_wire_str : RelayErrorCode → List ℕ
as_wire_str sender_mismatch = text "sender_mismatch"
as_wire_str unknown_recipient = text "unknown_recipient"
as_wire_str unsupported_event = text "unsupported_event"
as_wire_str client_not_connected = text "client_not_connected"
as_wire_str client_already_connected = text "client_already_connected"
as_wire_str connect_denied = text "connect_denied"
as_wire_str (other raw) = raw

unfoldable pub from_wire : List ℕ → RelayErrorCode
from_wire raw =
    if raw == text "sender_mismatch"
    then sender_mismatch
    else if raw == text "unknown_recipient"
    then unknown_recipient
    else if raw == text "unsupported_event"
    then unsupported_event
    else if raw == text "client_not_connected"
    then client_not_connected
    else if raw == text "client_already_connected"
    then client_already_connected
    else if raw == text "connect_denied"
    then connect_denied
    else other raw

-- What is read is written back as it was.
as_wire_str-from_wire : (raw : List ℕ) → as_wire_str (from_wire raw) ≡ raw
unfolding as_wire_str from_wire
as_wire_str-from_wire raw = ground arith

abbrev known_codes : List RelayErrorCode
known_codes =
    sender_mismatch ∷ unknown_recipient ∷ unsupported_event ∷ client_not_connected
    ∷ client_already_connected ∷ connect_denied ∷ []

-- An `other` that does not spell a known code.
unfoldable pub IsCanonical : RelayErrorCode → Type 0
IsCanonical (other raw) = All (λ code. raw ≢ as_wire_str code) known_codes
IsCanonical _ = Unit

from_wire-as_wire_str :
    (code : RelayErrorCode) → IsCanonical code → from_wire (as_wire_str code) ≡ code
unfolding as_wire_str from_wire bytes_discrete IsCanonical
from_wire-as_wire_str (other raw) h = ground arith
from_wire-as_wire_str _ h = refl

from_wire-IsCanonical : (raw : List ℕ) → IsCanonical (from_wire raw)
unfolding as_wire_str from_wire IsCanonical
from_wire-IsCanonical raw = ground arith

-- The string that an error code is written as.
unfoldable pub serialize_error_code : RelayErrorCode → List ℕ
unfolding as_wire_str
serialize_error_code code = as_wire_str code

unfoldable pub deserialize_error_code : Option (List ℕ) → Result RelayErrorCode WireError
unfolding from_wire
deserialize_error_code none = err not_a_string
deserialize_error_code (some raw) = ok (from_wire raw)

-- An error code is read from a wire value exactly when that is the string that the code is written
-- as and the code is no other code that spells a known one: all texts are read, known codes as
-- themselves and unknown ones verbatim.
pub deserialize_error_code_iff :
    (d : Option (List ℕ)) (code : RelayErrorCode)
    → (deserialize_error_code d ≡ ok code)
      ↔ ((d ≡ some (serialize_error_code code)) × IsCanonical code)
unfolding deserialize_error_code serialize_error_code
deserialize_error_code_iff none code = (λ h. ground arith, λ h. ground arith)
deserialize_error_code_iff (some raw) code = (
  λ h. (
    ground (arith, as_wire_str-from_wire raw),
    subst IsCanonical (ground arith) (from_wire-IsCanonical raw),
  ),
  λ h. ground (arith, from_wire-as_wire_str code h.1),
)
