-- ===== src/ClientCrypto/Own.antt =====
-- The two key pairs of a client in use.
use nullchat.Base.{ℕ, ◌≡◌, Str, suc, some, ok, inl, inr, Result-cases, arith}
use nullchat.Crypto.Ecdh.{EcKeys, KeyPair, pem_to_key, pem_to_public_key, generate_ecdh_key_pair}
use nullchat.Crypto.Rsa.{RsaCalls, rsa_key_bits, generate_rsa_key_pair, rsa_decrypt}
use nullchat.Crypto.Keys.{IsPem, IsPair, IsRsa, runs, rsa_decrypt-rsa_encrypt}
use nullchat.ClientCrypto.{ClientCrypto, new_client_crypto, encrypt_with_own_key}

-- What a generator of OpenSSL documents: the keys that it makes for RSA are keys for RSA, and those
-- it makes for the curve are on the curve.
pub record IsKeygen (ec : EcKeys) (rsa : RsaCalls ec) (public : ec.Key → ec.Key)
    (OnCurve : ec.Key → Type 0) : Type 0 where
  pub keygen_rsa :
      (n : ℕ) (a a1 a2 : ec.Ctx) (key : ec.Key)
      → rsa.ctx_new_id ≡ some a
      → ec.keygen_init a ≡ some a1
      → rsa.set_keygen_bits a1 rsa_key_bits ≡ some a2
      → ec.keygen n a2 ≡ some key
      → IsRsa ec rsa public key
  pub keygen_ec :
      (n : ℕ) (a a1 a2 : ec.Ctx) (key : ec.Key)
      → ec.ctx_new_id ≡ some a
      → ec.keygen_init a ≡ some a1
      → ec.set_curve a1 ≡ some a2
      → ec.keygen n a2 ≡ some key
      → OnCurve key

module _ (ec : EcKeys) (rsa : RsaCalls ec) (public : ec.Key → ec.Key) (OnCurve : ec.Key → Type 0)
    (keygen : IsKeygen ec rsa public OnCurve) where
  -- A pair that was generated belongs to a key of its kind.
  generated_rsa :
      (n : ℕ) (pair : KeyPair)
      → generate_rsa_key_pair ec rsa n ≡ ok pair
      → (key : ec.Key) × IsRsa ec rsa public key × IsPair ec key pair
  unfolding generate_rsa_key_pair pem_to_key pem_to_public_key
  generated_rsa n pair made =
      let (a, e) = runs rsa.ctx_new_id (λ fails. ground arith) in
      let (a1, e1) = runs (ec.keygen_init a) (λ fails. ground arith) in
      let (a2, e2) = runs (rsa.set_keygen_bits a1 rsa_key_bits) (λ fails. ground arith) in
      let (key, e3) = runs (ec.keygen n a2) (λ fails. ground arith) in
      let (bio, e4) = runs ec.bio_new (λ fails. ground arith) in
      let (private_key, e5) = runs (ec.write_private_key bio key) (λ fails. ground arith) in
      let (public_key, e6) = runs (ec.write_pubkey bio key) (λ fails. ground arith) in
      (
        key,
        keygen.keygen_rsa n a a1 a2 key e e1 e2 e3,
        record { bio = bio; private_key = ground arith; public_key = ground arith },
      )

  pub generated_ecdh :
      (n : ℕ) (pair : KeyPair)
      → generate_ecdh_key_pair ec n ≡ ok pair
      → (key : ec.Key) × OnCurve key × IsPair ec key pair
  unfolding generate_ecdh_key_pair pem_to_key pem_to_public_key
  generated_ecdh n pair made =
      let (a, e) = runs ec.ctx_new_id (λ fails. ground arith) in
      let (a1, e1) = runs (ec.keygen_init a) (λ fails. ground arith) in
      let (a2, e2) = runs (ec.set_curve a1) (λ fails. ground arith) in
      let (key, e3) = runs (ec.keygen n a2) (λ fails. ground arith) in
      let (bio, e4) = runs ec.bio_new (λ fails. ground arith) in
      let (private_key, e5) = runs (ec.write_private_key bio key) (λ fails. ground arith) in
      let (public_key, e6) = runs (ec.write_pubkey bio key) (λ fails. ground arith) in
      (
        key,
        keygen.keygen_ec n a a1 a2 key e e1 e2 e3,
        record { bio = bio; private_key = ground arith; public_key = ground arith },
      )

  -- The constructor generates both pairs of the client.
  constructed :
      (drawn : ℕ) (c : ClientCrypto)
      → new_client_crypto ec rsa drawn ≡ ok c
      → (generate_rsa_key_pair ec rsa drawn ≡ ok c.keypair)
        × (generate_ecdh_key_pair ec (suc drawn) ≡ ok c.ecdh_keypair)
  unfolding new_client_crypto
  constructed drawn c made = elim (Result-cases (generate_rsa_key_pair ec rsa drawn)) [
    | inl (why, fails) ↦ absurd (ground arith)
    | inr (pair, e) ↦ elim (Result-cases (generate_ecdh_key_pair ec (suc drawn))) [
      | inl (why, fails) ↦ absurd (ground arith)
      | inr (pair', e') ↦ (ground arith, ground arith)
    ]
  ]

  module _ (pem : IsPem ec public) where
    -- What a client has encrypted with its own key, it decrypts with its private key, in whatever
    -- state it was constructed and whatever random seeds it has drawn since. Of OpenSSL it is assumed
    -- that its generator makes RSA keys, that a key comes back from its PEM text, that no call which
    -- prepares a decryption with such a key fails, and that the key decrypts what its public half has
    -- encrypted under the same padding.
    pub rsa_decrypt-encrypt_with_own_key :
        (drawn random_drawn : ℕ) (key ciphertext : Str) (c : ClientCrypto)
        → new_client_crypto ec rsa drawn ≡ ok c
        → let used = record c { random_drawn = random_drawn } in
          (encrypt_with_own_key ec rsa key used).0 ≡ ok ciphertext
          → rsa_decrypt ec rsa ciphertext c.keypair.private_key ≡ ok key
    unfolding encrypt_with_own_key
    rsa_decrypt-encrypt_with_own_key drawn random_drawn key ciphertext c made encrypted =
        let (rsa_key, lawful, pair) = generated_rsa drawn c.keypair (constructed drawn c made).0 in
        rsa_decrypt-rsa_encrypt ec rsa public pem rsa_key lawful c.keypair pair random_drawn key
          ciphertext encrypted
