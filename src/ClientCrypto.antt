-- ===== src/ClientCrypto.antt =====
-- src/client/crypto/ClientCrypto.h and src/client/crypto/ClientCrypto.cpp.
pub mod Own
use nullchat.Base.{ℕ, suc, ◌≡◌, Str, none, some, Result, ok, err, ◌>>=◌, ◌+◌, [], arith}
use nullchat.Base.Map.{Map, find, insert, find-insert}
use nullchat.Crypto.{OpenSsl, Error, generate_aes_key, aes_encrypt, aes_decrypt}
use nullchat.Crypto.Ecdh.{EcKeys, KeyPair, generate_ecdh_key_pair, ecdh_derive}
use nullchat.Crypto.Rsa.{RsaCalls, generate_rsa_key_pair, rsa_encrypt}

-- `keys_drawn` and `random_drawn` count the keys and the random strings that have been made.
pub record ClientCrypto : Type 0 where
  pub keypair : KeyPair
  pub ecdh_keypair : KeyPair
  pub shared_keys : Map Str
  pub keys_drawn : ℕ
  pub random_drawn : ℕ

module _ (ssl : OpenSsl) where
  unfoldable pub generate_group_key : ClientCrypto → Result Error Str × ClientCrypto
  generate_group_key c =
      (generate_aes_key ssl c.random_drawn, record c { random_drawn = suc c.random_drawn })

  unfoldable pub encrypt_dm : Str → Str → ClientCrypto → Result Error Str × ClientCrypto
  encrypt_dm plaintext key c =
      (aes_encrypt ssl c.random_drawn plaintext key, record c { random_drawn = suc c.random_drawn })

  unfoldable pub decrypt_dm : Str → Str → Result Error Str
  decrypt_dm ciphertext key = aes_decrypt ssl ciphertext key

module _ (ec : EcKeys) (rsa : RsaCalls ec) where
  -- The constructor, behind `drawn` keys of the process.
  unfoldable pub new_client_crypto : ℕ → Result Error ClientCrypto
  new_client_crypto drawn = do
    keypair ← generate_rsa_key_pair ec rsa drawn
    ecdh_keypair ← generate_ecdh_key_pair ec (suc drawn)
    ok (record {
      keypair = keypair;
      ecdh_keypair = ecdh_keypair;
      shared_keys = [];
      keys_drawn = drawn + 2;
      random_drawn = 0;
    })

  unfoldable pub encrypt_with_own_key : Str → ClientCrypto → Result Error Str × ClientCrypto
  encrypt_with_own_key key c = (
    rsa_encrypt ec rsa c.random_drawn key c.keypair.public_key,
    record c { random_drawn = suc c.random_drawn },
  )

module _ (ec : EcKeys) where
  unfoldable pub generate_ecdh : ClientCrypto → Result Error KeyPair × ClientCrypto
  generate_ecdh c =
      let drawn = record c { keys_drawn = suc c.keys_drawn } in
      elim (generate_ecdh_key_pair ec c.keys_drawn) [
        | err why ↦ (err why, drawn)
        | ok pair ↦ (ok pair, record drawn { ecdh_keypair = pair })
      ]

module _ (ec : EcKeys) (ssl : OpenSsl) where
  unfoldable pub derive_shared_key : Str → ClientCrypto → Result Error Str
  derive_shared_key peer_pubkey c = ecdh_derive ec ssl c.ecdh_keypair.private_key peer_pubkey

  unfoldable pub get_or_derive_key : Str → Str → ClientCrypto → Result Error Str × ClientCrypto
  unfolding derive_shared_key
  get_or_derive_key peer_id peer_pubkey c = elim (find peer_id c.shared_keys) [
    | some key ↦ (ok key, c)
    | none ↦ elim (derive_shared_key peer_pubkey c) [
      | err why ↦ (err why, c)
      | ok key ↦ (ok key, record c { shared_keys = insert peer_id key c.shared_keys })
    ]
  ]

  -- The key of a peer is derived once. From then on the same key is returned and nothing changes,
  -- whatever public key is given: a peer that comes with a new key pair keeps its old key.
  pub get_or_derive_key_cached :
      (peer_id first later key : Str) (c : ClientCrypto)
      → (get_or_derive_key peer_id first c).0 ≡ ok key
      → let c' = (get_or_derive_key peer_id first c).1 in
        get_or_derive_key peer_id later c' ≡ (ok key, c')
  unfolding get_or_derive_key
  get_or_derive_key_cached peer_id first later key c h =
      ground (arith, find-insert peer_id peer_id key c.shared_keys)
