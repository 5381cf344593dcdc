-- ===== src/ChatCore/Nonce.antt =====
-- crates/chat-core/src/nonce.rs: the nonces seen so far, as a set.
use e2e_chat_rs.Prelude.{List, [], ◌∷◌, Bool, true, false, Result, ok, err, contains, if◌then◌else◌}
use e2e_chat_rs.ChatCore.Types.{NonceBytes, NonceBytes_eq}

pub data NonceError : Type 0 where
  duplicate_nonce : NonceError

pub record NonceTracker : Type 0 where
  pub seen : List NonceBytes

-- `NonceTracker::default`
abbrev pub default : NonceTracker
default = record { seen = [] }

-- `HashSet::insert`: whether the value was new, and the set with it.
abbrev insert : List NonceBytes → NonceBytes → Bool × List NonceBytes
insert seen nonce = if contains seen nonce then (false, seen) else (true, nonce ∷ seen)

unfoldable pub mark_seen : NonceTracker → NonceBytes → Result (Unit {0}) NonceError × NonceTracker
mark_seen tracker nonce =
    let (inserted, seen) = insert tracker.seen nonce in
    let after : NonceTracker = record tracker { seen = seen } in
    if inserted then (ok tt, after) else (err duplicate_nonce, after)
