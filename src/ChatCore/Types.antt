-- ===== src/ChatCore/Types.antt =====
-- crates/chat-core/src/types.rs: identifiers and byte fields. A `String` is the list of its code
-- points, a byte array the list of its bytes.
pub mod Parsing
pub mod Wire
use e2e_chat_rs.Prelude.{
  ℕ, ◌≡◌, Bool, ◌&&◌, ◌||◌, List, Eq, ◌==◌, ltb, leb, if◌then◌else◌, Result, ok, err, all, is_empty,
  length, not, bytes_discrete, ℕ_eq,
}

-- `CLIENT_ID_MAX_LEN`
abbrev pub client_id_max_len : ℕ
client_id_max_len = 64

pub data TypeError : Type 0 where
  empty_client_id client_id_too_long client_id_invalid_character : TypeError

pub record ClientId : Type 0 where
  pub value : List ℕ

unfoldable pub ClientId-discrete : Discrete ClientId
unfolding bytes_discrete
ClientId-discrete = hlevel bytes_discrete

instance abbrev pub ClientId_eq : Eq ClientId
ClientId_eq = record { discrete = ClientId-discrete }

-- `char::is_ascii_alphanumeric`
abbrev pub is_ascii_alphanumeric : ℕ → Bool
is_ascii_alphanumeric c =
    (leb b'0' c && leb c b'9') || (leb b'A' c && leb c b'Z') || (leb b'a' c && leb c b'z')

unfoldable pub is_allowed_client_id_char : ℕ → Bool
is_allowed_client_id_char c = is_ascii_alphanumeric c || (c == b'-' || c == b'_' || c == b'.')

unfoldable pub parse : List ℕ → Result ClientId TypeError
parse value =
    if is_empty value
    then err empty_client_id
    else if ltb client_id_max_len (length value)
    then err client_id_too_long
    else if not (all is_allowed_client_id_char value)
    then err client_id_invalid_character
    else ok (record { value = value })

abbrev pub as_str : ClientId → List ℕ
as_str id = id.value

-- `TryFrom<String> for ClientId` and `From<ClientId> for String`
abbrev pub try_from : List ℕ → Result ClientId TypeError
try_from value = parse value

abbrev pub into_string : ClientId → List ℕ
into_string id = id.value

-- The 128 bits of a `Uuid`.
pub record MessageId : Type 0 where
  pub uuid : ℕ

pub record PublicKeyBytes : Type 0 where
  pub bytes : List ℕ

unfoldable pub PublicKeyBytes-discrete : Discrete PublicKeyBytes
unfolding bytes_discrete
PublicKeyBytes-discrete = hlevel bytes_discrete

instance abbrev pub PublicKeyBytes_eq : Eq PublicKeyBytes
PublicKeyBytes_eq = record { discrete = PublicKeyBytes-discrete }

pub record NonceBytes : Type 0 where
  pub bytes : List ℕ

unfoldable pub NonceBytes-discrete : Discrete NonceBytes
unfolding bytes_discrete
NonceBytes-discrete = hlevel bytes_discrete

instance abbrev pub NonceBytes_eq : Eq NonceBytes
NonceBytes_eq = record { discrete = NonceBytes-discrete }

pub record Ciphertext : Type 0 where
  pub bytes : List ℕ

pub record RekeyId : Type 0 where
  pub bytes : List ℕ

unfoldable pub RekeyId-discrete : Discrete RekeyId
unfolding bytes_discrete
RekeyId-discrete = hlevel bytes_discrete

instance abbrev pub RekeyId_eq : Eq RekeyId
RekeyId_eq = record { discrete = RekeyId-discrete }
