-- ===== src/Crypto.antt =====
-- src/common/Crypto.h and src/common/Crypto.cpp without RSA: AES-256-GCM with its layout of IV,
-- ciphertext and tag, the random bytes and the hexadecimal SHA-256. OpenSSL is not part of the
-- repository: its calls are the fields of a parameter, and a call that reports failure is `none`.
pub mod Buffer
pub mod Gcm
pub mod Digest
pub mod Errors
pub mod Sample
pub mod Ecdh
pub mod Rsa
pub mod Keys
pub mod SampleKeys
mod Examples
use nullchat.Base.{
  ℕ, ◌+◌, ◌-◌, ◌/◌, ◌%◌, ◌≡◌, String, Str, Option, [], ◌∷◌, ◌++◌, length, take, drop, replicate,
  ltb, if◌then◌else◌, Result, ok, err, ◌>>=◌, or_throw,
}
use Buffer.{write, resize}

pub record OpenSsl : Type 1 where
  -- `EVP_CIPHER_CTX`
  pub Ctx : Type 0
  pub cipher_ctx_new : Option Ctx
  pub encrypt_init : Ctx → Str → Str → Option Ctx
  pub decrypt_init : Ctx → Str → Str → Option Ctx
  -- The bytes that a call writes to its output, and the context after it.
  pub encrypt_update : Ctx → Str → Option (Str × Ctx)
  pub encrypt_final : Ctx → Option (Str × Ctx)
  pub decrypt_update : Ctx → Str → Option (Str × Ctx)
  pub decrypt_final : Ctx → Option (Str × Ctx)
  pub get_tag : Ctx → Option Str
  pub set_tag : Ctx → Str → Option Ctx
  -- The n-th call of `RAND_bytes`, for so many bytes.
  pub rand_bytes : ℕ → ℕ → Option Str
  -- `SHA256`
  pub digest : Str → Str

-- GCM is a stream mode: an update writes as many bytes as it reads, and the end of an encryption or
-- of a decryption writes none. `RAND_bytes` fills the buffer, and a SHA-256 digest is 32 bytes.
pub record IsOpenSsl (ssl : OpenSsl) : Type 0 where
  pub encrypt_update-length :
      (c d : ssl.Ctx) (s out : Str)
      → ssl.encrypt_update c s ≡ Option.some (out, d)
      → length out ≡ length s
  pub encrypt_final-length :
      (c d : ssl.Ctx) (out : Str) → ssl.encrypt_final c ≡ Option.some (out, d) → length out ≡ 0
  pub decrypt_update-length :
      (c d : ssl.Ctx) (s out : Str)
      → ssl.decrypt_update c s ≡ Option.some (out, d)
      → length out ≡ length s
  pub decrypt_final-length :
      (c d : ssl.Ctx) (out : Str) → ssl.decrypt_final c ≡ Option.some (out, d) → length out ≡ 0
  pub get_tag-length : (c : ssl.Ctx) (tag : Str) → ssl.get_tag c ≡ Option.some tag → length tag ≡ 16
  pub rand_bytes-length :
      (draw n : ℕ) (s : Str) → ssl.rand_bytes draw n ≡ Option.some s → length s ≡ n
  pub digest-length : (s : Str) → length (ssl.digest s) ≡ 32

-- What the functions throw: `check` with the name of the call, and the texts of the source.
pub data Error : Type 0 where
  check_failed : String → Error
  ciphertext_too_short tampered_data data_too_short : Error

abbrev pub aes_key_size : ℕ
aes_key_size = 32

abbrev pub aes_iv_size : ℕ
aes_iv_size = 16

-- `check(call == 1, "call")`
abbrev pub check {ℓ} : {A : Type ℓ} → Option A → String → Result Error A
check o msg = or_throw o (check_failed msg)

hex_digit : ℕ → ℕ
hex_digit n = if ltb n 10 then b'0' + n else b'a' + (n - 10)

pub hex : Str → Str
unfolding hex_digit
hex [] = []
hex (b ∷ bs) = hex_digit (b / 16) ∷ hex_digit (b % 16) ∷ hex bs

module _ (ssl : OpenSsl) where
  -- `aesEncryptDecrypt(input, key, iv, true)`
  pub encrypt : Str → Str → Str → Result Error Str
  encrypt input key iv = do
    new ← check ssl.cipher_ctx_new "EVP_CIPHER_CTX_new"
    ctx ← check (ssl.encrypt_init new key iv) "EVP_EncryptInit_ex/EVP_DecryptInit_ex"
    let output = replicate (length input + 16) 0
    (body, ctx1) ← check (ssl.encrypt_update ctx input) "EVP_EncryptUpdate"
    let output1 = write 0 body output
    (rest, ctx2) ← check (ssl.encrypt_final ctx1) "EVP_EncryptFinal_ex"
    let output2 = write (length body) rest output1
    let outlen = length body + length rest
    tag ← check (ssl.get_tag ctx2) "EVP_CTRL_GCM_GET_TAG"
    let output3 = write outlen tag (resize (outlen + 16) output2)
    ok (resize outlen output3)

  -- `aesEncryptDecrypt(input, key, iv, false)`
  pub decrypt : Str → Str → Str → Result Error Str
  decrypt input key iv = do
    new ← check ssl.cipher_ctx_new "EVP_CIPHER_CTX_new"
    ctx ← check (ssl.decrypt_init new key iv) "EVP_EncryptInit_ex/EVP_DecryptInit_ex"
    let output = replicate (length input + 16) 0
    ctlen ← if ltb (length input) 16 then err ciphertext_too_short else ok (length input - 16)
    ctx1 ← check (ssl.set_tag ctx (drop ctlen input)) "EVP_CTRL_GCM_SET_TAG"
    (body, ctx2) ← check (ssl.decrypt_update ctx1 (take ctlen input)) "EVP_DecryptUpdate"
    let output1 = write 0 body output
    (rest, ctx3) ← or_throw (ssl.decrypt_final ctx2) tampered_data
    let output2 = write (length body) rest output1
    ok (resize (length body + length rest) output2)

  pub generate_aes_key : ℕ → Result Error Str
  generate_aes_key draw = check (ssl.rand_bytes draw aes_key_size) "RAND_bytes AES key"

  pub generate_iv : ℕ → Result Error Str
  generate_iv draw = check (ssl.rand_bytes draw aes_iv_size) "RAND_bytes IV"

  pub aes_encrypt : ℕ → Str → Str → Result Error Str
  aes_encrypt draw plaintext key = do
    iv ← generate_iv draw
    ciphertext ← encrypt plaintext key iv
    ok (iv ++ ciphertext)

  pub aes_decrypt : Str → Str → Result Error Str
  aes_decrypt data' key =
      if ltb (length data') aes_iv_size
      then err data_too_short
      else decrypt (drop aes_iv_size data') key (take aes_iv_size data')

  unfoldable pub sha256 : Str → Str
  unfolding hex
  sha256 s = hex (ssl.digest s)
