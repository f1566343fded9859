-- ===== src/P2P.antt =====
-- src/client/network/P2PManager.h and src/client/network/P2PManager.cpp.
pub mod Channels
pub mod Agreement
mod Examples
use nullchat.Base.{
  suc, Str, Bool, true, false, Option, none, some, List, [], ◌∷◌, ◌++◌, Result, ok, err,
}
use nullchat.Base.Map.{Map, find, insert}
use nullchat.Crypto.{OpenSsl, Error, aes_encrypt, aes_decrypt}
use nullchat.Crypto.Ecdh.{EcKeys, ecdh_derive}
use nullchat.ClientCrypto.{ClientCrypto, generate_ecdh}

pub record P2PChannel : Type 0 where
  pub peer_id : Str
  pub peer_username : Str
  pub session_key : Str
  pub connected : Bool

-- `crypto_` belongs to the manager here, `signals` are the peers for which `connected` was emitted.
pub record P2PManager : Type 0 where
  pub crypto : ClientCrypto
  pub channels : Map P2PChannel
  pub group_keys : Map Str
  pub signals : List Str

abbrev pub new_manager : ClientCrypto → P2PManager
new_manager crypto = record { crypto = crypto; channels = []; group_keys = []; signals = [] }

unfoldable pub has_session : P2PManager → Str → Bool
has_session m peer_id = elim (find peer_id m.channels) [ none ↦ false | some ch ↦ ch.connected ]

unfoldable pub has_group_key : P2PManager → Str → Bool
has_group_key m group_id = elim (find group_id m.group_keys) [ none ↦ false | some key ↦ true ]

-- The key of the channel to a peer.
abbrev pub channel_key : P2PManager → Str → Option Str
channel_key m peer_id = elim (find peer_id m.channels) [
  | none ↦ none
  | some ch ↦ some ch.session_key
]

module _ (ssl : OpenSsl) where
  -- With the key of a channel or of a group, if there is one.
  unfoldable pub encrypt_with : Option Str → Str → P2PManager → Result Error Str × P2PManager
  encrypt_with none plaintext m = (ok plaintext, m)
  encrypt_with (some key) plaintext m = (
    aes_encrypt ssl m.crypto.random_drawn plaintext key,
    record m { crypto = record m.crypto { random_drawn = suc m.crypto.random_drawn } },
  )

  unfoldable pub decrypt_with : Option Str → Str → Result Error Str
  decrypt_with none ciphertext = ok ciphertext
  decrypt_with (some key) ciphertext = aes_decrypt ssl ciphertext key

  unfoldable pub encrypt_message : Str → Str → P2PManager → Result Error Str × P2PManager
  unfolding encrypt_with
  encrypt_message peer_id plaintext m = encrypt_with (channel_key m peer_id) plaintext m

  unfoldable pub decrypt_message : Str → Str → P2PManager → Result Error Str
  unfolding decrypt_with
  decrypt_message peer_id ciphertext m = decrypt_with (channel_key m peer_id) ciphertext

  unfoldable pub encrypt_group_message : Str → Str → P2PManager → Result Error Str × P2PManager
  unfolding encrypt_with
  encrypt_group_message group_id plaintext m = encrypt_with (find group_id m.group_keys) plaintext m

  unfoldable pub decrypt_group_message : Str → Str → P2PManager → Result Error Str
  unfolding decrypt_with
  decrypt_group_message group_id ciphertext m = decrypt_with (find group_id m.group_keys) ciphertext

module _ (ec : EcKeys) (ssl : OpenSsl) where
  -- What the caller sees: an exception, or nothing; and the manager behind the call.
  unfoldable pub handle_offer : Str → Str → P2PManager → Result Error (Unit {0}) × P2PManager
  handle_offer from_id public_key m =
      let (made, crypto) = generate_ecdh ec m.crypto in
      let fresh = record m { crypto = crypto } in
      elim made [
        | err why ↦ (err why, fresh)
        | ok pair ↦ elim (ecdh_derive ec ssl pair.private_key public_key) [
          | err why ↦ (err why, fresh)
          | ok secret ↦ (
            ok tt,
            record fresh {
              channels =
                  insert from_id
                    (record {
                      peer_id = from_id;
                      peer_username = [];
                      session_key = secret;
                      connected = true;
                    })
                    m.channels;
              signals = m.signals ++ from_id ∷ [];
            },
          )
        ]
      ]
