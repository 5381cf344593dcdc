-- ===== src/ChatCore/Crypto/Marks.antt =====
-- The inbound nonces that a session has marked, epoch by epoch.
use e2e_chat_rs.Prelude.{
  ℕ, ◌+◌, ◌≤◌, ◌<◌, ◌≡◌, arith, Bool, true, contains, get_or, leb, ℕ_eq, if◌then◌else◌, ok, err,
}
use e2e_chat_rs.Prelude.Words.{u32_mod, add_u32}
use e2e_chat_rs.Prelude.Maps
use e2e_chat_rs.ChatCore.Types.{NonceBytes, NonceBytes_eq}
use e2e_chat_rs.ChatCore.Nonce.{mark_seen}
use e2e_chat_rs.ChatCore.Nonce
use e2e_chat_rs.ChatCore.Crypto.Primitives.{Bytes}
use e2e_chat_rs.ChatCore.Crypto.Session.{CryptoSession, duplicate_nonce}
use e2e_chat_rs.ChatCore.Crypto.Cipher.{mark_inbound, accepts_epoch}
use e2e_chat_rs.ChatCore.Crypto.Rekey.{apply_next_master}

-- Whether the session remembers a nonce of an epoch.
abbrev pub seen : CryptoSession → ℕ → NonceBytes → Bool
seen s epoch nonce = contains (get_or (Maps.get s.inbound_nonces epoch) Nonce.default).seen nonce

pub mark_inbound-keeps :
    (epoch e : ℕ) (nonce n : NonceBytes) (s : CryptoSession)
    → seen s e n ≡ true
    → seen (mark_inbound epoch nonce s).1 e n ≡ true
unfolding mark_inbound mark_seen
mark_inbound-keeps epoch e nonce n s h = ground (
  arith,
  Maps.get-insert s.inbound_nonces epoch e
      (mark_seen (get_or (Maps.get s.inbound_nonces epoch) Nonce.default) nonce).1,
)

pub mark_inbound-marks :
    (epoch : ℕ) (nonce : NonceBytes) (s : CryptoSession)
    → seen (mark_inbound epoch nonce s).1 epoch nonce ≡ true
unfolding mark_inbound mark_seen
mark_inbound-marks epoch nonce s = ground (
  arith,
  Maps.get-insert s.inbound_nonces epoch epoch
      (mark_seen (get_or (Maps.get s.inbound_nonces epoch) Nonce.default) nonce).1,
)

pub accepts_epoch_bounds :
    (s : CryptoSession) (epoch : ℕ)
    → epoch < u32_mod
    → accepts_epoch s epoch ≡ true
    → (s.epoch ≤ epoch + 1) × (epoch ≤ s.epoch)
unfolding accepts_epoch
accepts_epoch_bounds s epoch fits h = ground arith

pub apply_next_master-keeps :
    (next : Bytes) (s : CryptoSession) (e : ℕ) (n : NonceBytes)
    → s.epoch + 1 < u32_mod
    → e ≤ s.epoch
    → s.epoch ≤ e
    → seen s e n ≡ true
    → seen (apply_next_master next s) e n ≡ true
unfolding apply_next_master
apply_next_master-keeps next s e n fits h k m =
    ground (arith, Maps.get-retain s.inbound_nonces (λ g. leb (add_u32 s.epoch 1) (add_u32 g 1)) e)

pub mark_inbound_lem :
    (epoch : ℕ) (nonce : NonceBytes) (s : CryptoSession)
    → ((mark_inbound epoch nonce s).0 ≡ (if seen s epoch nonce then err duplicate_nonce else ok tt))
      × ((mark_inbound epoch nonce s).1.epoch ≡ s.epoch)
unfolding mark_inbound mark_seen
mark_inbound_lem epoch nonce s = ground arith

-- Only nonces of the current epoch and of the one before it are remembered.
abbrev pub IsRecent : CryptoSession → Type 0
IsRecent s = (e : ℕ) (n : NonceBytes) → seen s e n ≡ true → (s.epoch ≤ e + 1) × (e ≤ s.epoch)

pub mark_inbound-IsRecent :
    (epoch : ℕ) (nonce : NonceBytes) (s : CryptoSession)
    → s.epoch ≤ epoch + 1
    → epoch ≤ s.epoch
    → IsRecent s
    → IsRecent (mark_inbound epoch nonce s).1
unfolding mark_inbound mark_seen
mark_inbound-IsRecent epoch nonce s low high r e n h = ground (
  arith,
  r e n,
  Maps.get-insert s.inbound_nonces epoch e
      (mark_seen (get_or (Maps.get s.inbound_nonces epoch) Nonce.default) nonce).1,
)

pub apply_next_master-IsRecent :
    (next : Bytes) (s : CryptoSession)
    → s.epoch + 1 < u32_mod
    → IsRecent s
    → IsRecent (apply_next_master next s)
unfolding apply_next_master
apply_next_master-IsRecent next s fits r e n h =
    ground (
      arith,
      r e n,
      Maps.get-retain s.inbound_nonces (λ g. leb (add_u32 s.epoch 1) (add_u32 g 1)) e,
    )
