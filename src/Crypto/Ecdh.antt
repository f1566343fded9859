-- ===== src/Crypto/Ecdh.antt =====
-- src/common/Crypto.cpp: key pairs on P-256 and the keys that two of them agree on. The key and PEM
-- calls of OpenSSL are the fields of a parameter; a call that reports failure is `none`.
use nullchat.Base.{ℕ, ◌≡◌, Str, Option, length, Result, ok, ◌>>=◌, arith}
use nullchat.Crypto.{OpenSsl, Error, check, aes_key_size}
use nullchat.Crypto.Buffer.{resize, length-resize}

pub record EcKeys : Type 1 where
  -- `EVP_PKEY`, `EVP_PKEY_CTX` and `BIO`
  pub Key : Type 0
  pub Ctx : Type 0
  pub Bio : Type 0
  pub ctx_new_id : Option Ctx
  pub keygen_init : Ctx → Option Ctx
  pub set_curve : Ctx → Option Ctx
  -- The n-th key that is generated.
  pub keygen : ℕ → Ctx → Option Key
  pub bio_new : Option Bio
  pub write_private_key : Bio → Key → Option Str
  pub write_pubkey : Bio → Key → Option Str
  pub bio_new_mem_buf : Str → Option Bio
  pub read_private_key : Bio → Option Key
  pub read_pubkey : Bio → Option Key
  pub ctx_new : Key → Option Ctx
  pub derive_init : Ctx → Option Ctx
  pub derive_set_peer : Ctx → Key → Option Ctx
  pub derive_size : Ctx → Option ℕ
  pub derive : Ctx → Option Str

pub record KeyPair : Type 0 where
  pub public_key : Str
  pub private_key : Str

module _ (ec : EcKeys) where
  unfoldable pub pem_to_key : ec.Key → Result Error Str
  pem_to_key key = do
    bio ← check ec.bio_new "BIO_new"
    check (ec.write_private_key bio key) "PEM_write_bio_PrivateKey"

  unfoldable pub pem_to_public_key : ec.Key → Result Error Str
  pem_to_public_key key = do
    bio ← check ec.bio_new "BIO_new"
    check (ec.write_pubkey bio key) "PEM_write_bio_PUBKEY"

  unfoldable pub pem_to_evp_pkey : Str → Result Error ec.Key
  pem_to_evp_pkey pem = do
    bio ← check (ec.bio_new_mem_buf pem) "BIO_new_mem_buf"
    check (ec.read_private_key bio) "PEM_read_bio_PrivateKey"

  unfoldable pub pem_to_evp_public_key : Str → Result Error ec.Key
  pem_to_evp_public_key pem = do
    bio ← check (ec.bio_new_mem_buf pem) "BIO_new_mem_buf"
    check (ec.read_pubkey bio) "PEM_read_bio_PUBKEY"

  -- `drawn` keys have been generated before.
  unfoldable pub generate_ecdh_key_pair : ℕ → Result Error KeyPair
  unfolding pem_to_key pem_to_public_key
  generate_ecdh_key_pair drawn = do
    ctx ← check ec.ctx_new_id "EVP_PKEY_CTX_new_id"
    ctx1 ← check (ec.keygen_init ctx) "EVP_PKEY_keygen_init"
    ctx2 ← check (ec.set_curve ctx1) "EVP_PKEY_CTX_set_ec_paramgen_curve_nid"
    key ← check (ec.keygen drawn ctx2) "EVP_PKEY_keygen"
    private_key ← pem_to_key key
    public_key ← pem_to_public_key key
    ok (record { public_key = public_key; private_key = private_key })

  -- The shared secret, hashed to a key for AES.
  unfoldable pub ecdh_derive : OpenSsl → Str → Str → Result Error Str
  unfolding pem_to_evp_pkey pem_to_evp_public_key
  ecdh_derive ssl private_key_pem public_key_pem = do
    priv ← pem_to_evp_pkey private_key_pem
    peer ← pem_to_evp_public_key public_key_pem
    ctx ← check (ec.ctx_new priv) "EVP_PKEY_CTX_new"
    ctx1 ← check (ec.derive_init ctx) "EVP_PKEY_derive_init"
    ctx2 ← check (ec.derive_set_peer ctx1 peer) "EVP_PKEY_derive_set_peer"
    size ← check (ec.derive_size ctx2) "EVP_PKEY_derive (size)"
    secret ← check (ec.derive ctx2) "EVP_PKEY_derive"
    ok (resize aes_key_size (ssl.digest secret))

  -- A derived key has the size of an AES key.
  pub ecdh_derive-length :
      (ssl : OpenSsl) (private_key_pem public_key_pem key : Str)
      → ecdh_derive ssl private_key_pem public_key_pem ≡ ok key
      → length key ≡ 32
  unfolding ecdh_derive
  ecdh_derive-length ssl private_key_pem public_key_pem key h = grind (arith, length-resize)
