-- ===== src/Tests/Overflow.antt =====
-- An envelope of the largest epoch, which nobody has sealed, at a session that has rekeyed once.
use e2e_chat_rs.ChatCore.Types.{ClientId-discrete}
use e2e_chat_rs.Prelude.{refl, ◌+◌, ◌^◌, ◌<◌, ◌≡◌, ◌↔◌, ◌⊎◌, none, some, [], arith}
use e2e_chat_rs.ChatCore.Event.{EncryptedEnvelope}
use e2e_chat_rs.ChatCore.Crypto.Session.{CryptoSession, new}
use e2e_chat_rs.ChatCore.Crypto.Cipher.{decrypt}
use e2e_chat_rs.ChatCore.Crypto.Overflow.{
  accepts_epoch_checked, decrypt_checked, decrypt_checked_panics,
}
use e2e_chat_rs.Tests.Core.{alice, bob, alice_session, message}
use e2e_chat_rs.Tests.Toy.{toy}

abbrev rekeyed : CryptoSession
rekeyed = record alice_session { epoch = 1 }

abbrev forged : EncryptedEnvelope
forged = record {
  sender = bob;
  recipient = alice;
  message_id = message 9;
  epoch = 4294967295;
  nonce = record { bytes = [] };
  ciphertext = record { bytes = [] };
}

forged_panics : decrypt_checked toy forged rekeyed ≡ none
unfolding decrypt_checked accepts_epoch_checked ClientId-discrete new
forged_panics = refl

decrypt_checked_panics_example :
    ((decrypt_checked toy forged rekeyed ≡ none) ↔ (
      (bob ≡ rekeyed.peer_id) × (alice ≡ rekeyed.local_id) × (0 < 1) × (4294967295 + 1 ≡ 2 ^ 32)))
    × ((decrypt_checked toy forged rekeyed ≡ none)
        ⊎ (decrypt_checked toy forged rekeyed ≡ some (decrypt toy forged rekeyed)))
decrypt_checked_panics_example = decrypt_checked_panics toy forged rekeyed (omega arith)
