-- ===== src/Crypto/Rsa.antt =====
-- src/common/Crypto.cpp: RSA key pairs, encryption and signatures. The calls of OpenSSL that the
-- key pairs on P-256 do not need are the fields of a second parameter.
use nullchat.Base.{ℕ, ◌≡◌, Str, Bool, Option, length, replicate, drop, ◌∙◌, ap, Result, ok, ◌>>=◌}
use nullchat.Base.Int.{ℤ, pos, eq_ℤ}
use nullchat.Crypto.{Error, check}
use nullchat.Crypto.Buffer.{write, resize, write_start, resize_exact}
use nullchat.Crypto.Ecdh.{
  EcKeys, KeyPair, pem_to_key, pem_to_public_key, pem_to_evp_pkey, pem_to_evp_public_key,
}

-- The paddings of OpenSSL's RSA.
pub data Padding : Type 0 where
  pkcs1_padding pkcs1_oaep_padding no_padding : Padding

pub record RsaCalls (ec : EcKeys) : Type 1 where
  -- `EVP_MD_CTX`
  pub MdCtx : Type 0
  pub ctx_new_id : Option ec.Ctx
  pub set_keygen_bits : ec.Ctx → ℕ → Option ec.Ctx
  pub set_padding : ec.Ctx → Padding → Option ec.Ctx
  pub encrypt_init : ec.Ctx → Option ec.Ctx
  pub encrypt_size : ec.Ctx → Str → Option ℕ
  -- The bytes that a call writes to its output. Encryption draws a random seed, counted first.
  pub encrypt : ℕ → ec.Ctx → Str → Option Str
  pub decrypt_init : ec.Ctx → Option ec.Ctx
  pub decrypt_size : ec.Ctx → Str → Option ℕ
  pub decrypt : ec.Ctx → Str → Option Str
  pub md_ctx_new : Option MdCtx
  pub sign_init : MdCtx → ec.Key → Option MdCtx
  pub sign_size : MdCtx → Str → Option ℕ
  pub sign : MdCtx → Str → Option Str
  pub verify_init : MdCtx → ec.Key → Option MdCtx
  -- The return code for a signature and the data.
  pub verify : MdCtx → Str → Str → ℤ

abbrev pub rsa_key_bits : ℕ
rsa_key_bits = 4096

module _ (ec : EcKeys) (rsa : RsaCalls ec) where
  unfoldable pub generate_rsa_key_pair : ℕ → Result Error KeyPair
  unfolding pem_to_key pem_to_public_key
  generate_rsa_key_pair drawn = do
    ctx ← check rsa.ctx_new_id "EVP_PKEY_CTX_new_id"
    ctx1 ← check (ec.keygen_init ctx) "EVP_PKEY_keygen_init"
    ctx2 ← check (rsa.set_keygen_bits ctx1 rsa_key_bits) "EVP_PKEY_CTX_set_rsa_keygen_bits"
    pkey ← check (ec.keygen drawn ctx2) "EVP_PKEY_keygen"
    private_key ← pem_to_key ec pkey
    public_key ← pem_to_public_key ec pkey
    ok (record { public_key = public_key; private_key = private_key })

  unfoldable pub rsa_encrypt : ℕ → Str → Str → Result Error Str
  unfolding pem_to_evp_public_key
  rsa_encrypt draw plaintext public_key_pem = do
    pkey ← pem_to_evp_public_key ec public_key_pem
    ctx ← check (ec.ctx_new pkey) "EVP_PKEY_CTX_new"
    ctx1 ← check (rsa.encrypt_init ctx) "EVP_PKEY_encrypt_init"
    ctx2 ← check (rsa.set_padding ctx1 pkcs1_oaep_padding) "EVP_PKEY_CTX_set_rsa_padding"
    outlen ← check (rsa.encrypt_size ctx2 plaintext) "EVP_PKEY_encrypt (size)"
    out ← check (rsa.encrypt draw ctx2 plaintext) "EVP_PKEY_encrypt"
    ok (resize (length out) (write 0 out (replicate outlen 0)))

  unfoldable pub rsa_decrypt : Str → Str → Result Error Str
  unfolding pem_to_evp_pkey
  rsa_decrypt ciphertext private_key_pem = do
    pkey ← pem_to_evp_pkey ec private_key_pem
    ctx ← check (ec.ctx_new pkey) "EVP_PKEY_CTX_new"
    ctx1 ← check (rsa.decrypt_init ctx) "EVP_PKEY_decrypt_init"
    ctx2 ← check (rsa.set_padding ctx1 pkcs1_oaep_padding) "EVP_PKEY_CTX_set_rsa_padding"
    outlen ← check (rsa.decrypt_size ctx2 ciphertext) "EVP_PKEY_decrypt (size)"
    out ← check (rsa.decrypt ctx2 ciphertext) "EVP_PKEY_decrypt"
    ok (resize (length out) (write 0 out (replicate outlen 0)))

  unfoldable pub rsa_sign : Str → Str → Result Error Str
  unfolding pem_to_evp_pkey
  rsa_sign data' private_key_pem = do
    pkey ← pem_to_evp_pkey ec private_key_pem
    mdctx ← check rsa.md_ctx_new "EVP_MD_CTX_new"
    mdctx1 ← check (rsa.sign_init mdctx pkey) "EVP_DigestSignInit"
    siglen ← check (rsa.sign_size mdctx1 data') "EVP_DigestSign (size)"
    out ← check (rsa.sign mdctx1 data') "EVP_DigestSign"
    ok (resize (length out) (write 0 out (replicate siglen 0)))

  unfoldable pub rsa_verify : Str → Str → Str → Result Error Bool
  unfolding pem_to_evp_public_key
  rsa_verify data' signature public_key_pem = do
    pkey ← pem_to_evp_public_key ec public_key_pem
    mdctx ← check rsa.md_ctx_new "EVP_MD_CTX_new"
    mdctx1 ← check (rsa.verify_init mdctx pkey) "EVP_DigestVerifyInit"
    let rc = rsa.verify mdctx1 signature data'
    ok (eq_ℤ rc (pos 1))

-- A result that was written to the start of a buffer and cut to its own length.
pub resize-write : (out buf : Str) → resize (length out) (write 0 out buf) ≡ out
resize-write out buf =
    ap (resize (length out)) (write_start out buf) ∙ resize_exact out (drop (length out) buf)
