-- ===== src/ChatCore/Crypto/Session.antt =====
-- The state of a `CryptoSession`.
use e2e_chat_rs.Prelude.{ℕ, Bool, true, false, ◌||◌, Option, none, some, Method}
use e2e_chat_rs.Prelude.Maps.{HashMap}
use e2e_chat_rs.Prelude.Maps
use e2e_chat_rs.ChatCore.Types.{ClientId, PublicKeyBytes, RekeyId}
use e2e_chat_rs.ChatCore.Nonce.{NonceTracker}
use e2e_chat_rs.ChatCore.Crypto.Primitives.{Bytes, Primitives}
use e2e_chat_rs.ChatCore.Crypto.Info.{session_info, nonce_prefix}

pub data CryptoError : Type 0 where
  authentication_failed unexpected_peer unknown_epoch encryption_failed : CryptoError
  key_derivation_failed invalid_key_length : CryptoError
  associated_data_serialization_failed nonce_exhausted : CryptoError
  rekey_already_in_progress unknown_rekey_id no_staged_rekey : CryptoError
  payload_serialization_failed payload_deserialization_failed duplicate_nonce : CryptoError

pub record KeyPair : Type 0 where
  pub secret : Bytes
  pub public_key : PublicKeyBytes

-- `KeyPair::generate`, at the secret that is drawn
unfoldable pub generate : Primitives → Bytes → KeyPair
generate prim secret = record {
  secret = secret;
  public_key = record { bytes = prim.x25519_public secret };
}

pub record PendingRekey : Type 0 where
  pub rekey_id : RekeyId
  pub ephemeral_secret : Bytes

pub record CryptoSession : Type 0 where
  pub master_secret : Bytes
  pub session_info : Bytes
  pub local_id : ClientId
  pub peer_id : ClientId
  pub inbound_nonces : HashMap ℕ NonceTracker
  pub outbound_nonce_prefix : Bytes
  pub next_outbound_nonce : ℕ  -- u64
  pub epoch : ℕ  -- u32
  pub pending_rekey : Option PendingRekey
  pub staged_master : Option Bytes

unfoldable pub new : Primitives → KeyPair → PublicKeyBytes → ClientId → ClientId → CryptoSession
new prim local_keypair peer_public_key local_id peer_id = record {
  master_secret = prim.x25519 local_keypair.secret peer_public_key.bytes;
  session_info = session_info local_id peer_id;
  local_id = local_id;
  peer_id = peer_id;
  inbound_nonces = Maps.empty;
  outbound_nonce_prefix = nonce_prefix prim local_id peer_id;
  next_outbound_nonce = 0;
  epoch = 0;
  pending_rekey = none;
  staged_master = none;
}

abbrev pub is_some : {A : Type 0} → Option A → Bool
is_some none = false
is_some (some _) = true

abbrev pub is_rekey_in_progress : CryptoSession → Bool
is_rekey_in_progress s = is_some s.pending_rekey || is_some s.staged_master

abbrev pub SessionMethod : Type 0 → Type 0
SessionMethod A = Method CryptoSession CryptoError A
