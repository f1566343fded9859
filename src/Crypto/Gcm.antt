-- ===== src/Crypto/Gcm.antt =====
-- AES-256-GCM: what `aesEncrypt` writes and what `aesDecrypt` reads.
use nullchat.Base.{
  ℕ, ◌+◌, ◌-◌, ◌≡◌, ◌≢◌, ◌∙◌, sym, Str, ◌++◌, append_assoc, take-append_self, drop-append_self,
  false, length, length-append, length-take, length-drop, take, drop, ltb, if◌then◌else◌, Result,
  ok, err, ◌>>=◌, or_throw, arith,
}
use nullchat.Crypto.{
  OpenSsl, IsOpenSsl, Error, check, ciphertext_too_short, tampered_data, encrypt, decrypt,
  generate_iv, aes_encrypt, aes_decrypt,
}
use nullchat.Crypto.Buffer.{write, resize, write_start, write_behind, resize_front, resize_exact}

-- Two writes, one behind the other, and a cut behind them.
two_writes :
    (body rest buf : Str)
    → write (length body) rest (write 0 body buf)
      ≡ (body ++ rest) ++ drop (length body + length rest) (write 0 body buf)
two_writes body rest buf = rw (write_start body buf) (
    write_behind body rest (drop (length body) buf)
    ∙ sym (
        append_assoc body rest (drop (length body + length rest) (body ++ drop (length body) buf))))

written :
    (body rest buf : Str)
    → resize (length body + length rest) (write (length body) rest (write 0 body buf))
      ≡ body ++ rest
written body rest buf =
    let tail = drop (length (body ++ rest)) (write 0 body buf) in
    rw (two_writes body rest buf, ← length-append body rest) (resize_exact (body ++ rest) tail)

-- The tag is written behind the ciphertext, and the last `resize` cuts it off.
tag_lost :
    (body rest tag buf : Str)
    → let n = length body + length rest in
      resize n (write n tag (resize (n + 16) (write (length body) rest (write 0 body buf))))
      ≡ body ++ rest
tag_lost body rest tag buf =
    let tail = drop (length (body ++ rest)) (write 0 body buf) in
    let n = length (body ++ rest) in
    rw
      (
        two_writes body rest buf,
        ← length-append body rest,
        resize_front (n + 16) (body ++ rest) tail (omega arith),
        write_behind (body ++ rest) tag (resize (n + 16 - n) tail),
      )
      (resize_exact (body ++ rest) _)

module _ (ssl : OpenSsl) where
  -- The calls of an encryption, and what its caller gets in the end: the ciphertext alone.
  encryption : Str → Str → Str → Result Error Str
  encryption input key iv = do
    new ← check ssl.cipher_ctx_new "EVP_CIPHER_CTX_new"
    ctx ← check (ssl.encrypt_init new key iv) "EVP_EncryptInit_ex/EVP_DecryptInit_ex"
    (body, ctx1) ← check (ssl.encrypt_update ctx input) "EVP_EncryptUpdate"
    (rest, ctx2) ← check (ssl.encrypt_final ctx1) "EVP_EncryptFinal_ex"
    tag ← check (ssl.get_tag ctx2) "EVP_CTRL_GCM_GET_TAG"
    ok (body ++ rest)

  encrypt-encryption : (input key iv : Str) → encrypt ssl input key iv ≡ encryption input key iv
  unfolding encrypt encryption
  encrypt-encryption input key iv = simp tag_lost

  decryption : Str → Str → Str → Result Error Str
  decryption input key iv = do
    new ← check ssl.cipher_ctx_new "EVP_CIPHER_CTX_new"
    ctx ← check (ssl.decrypt_init new key iv) "EVP_EncryptInit_ex/EVP_DecryptInit_ex"
    ctlen ← if ltb (length input) 16 then err ciphertext_too_short else ok (length input - 16)
    ctx1 ← check (ssl.set_tag ctx (drop ctlen input)) "EVP_CTRL_GCM_SET_TAG"
    (body, ctx2) ← check (ssl.decrypt_update ctx1 (take ctlen input)) "EVP_DecryptUpdate"
    (rest, ctx3) ← or_throw (ssl.decrypt_final ctx2) tampered_data
    ok (body ++ rest)

  decrypt-decryption : (input key iv : Str) → decrypt ssl input key iv ≡ decryption input key iv
  unfolding decrypt decryption
  decrypt-decryption input key iv = simp written

module _ (ssl : OpenSsl) (lawful : IsOpenSsl ssl) where
  encrypt-length :
      (input key iv out : Str) → encrypt ssl input key iv ≡ ok out → length out ≡ length input
  unfolding encryption
  encrypt-length input key iv out h =
      let e : encryption ssl input key iv ≡ ok out =
        sym (encrypt-encryption ssl input key iv) ∙ h in
      grind (arith, lawful.encrypt_update-length, lawful.encrypt_final-length, length-append)

  decrypt-length :
      (input key iv out : Str) → decrypt ssl input key iv ≡ ok out → length out + 16 ≡ length input
  unfolding decryption
  decrypt-length input key iv out h =
      let e : decryption ssl input key iv ≡ ok out =
        sym (decrypt-decryption ssl input key iv) ∙ h in
      grind (
        arith,
        lawful.decrypt_update-length,
        lawful.decrypt_final-length,
        length-append,
        length-take (length input - 16) input,
      )

  -- A message that `aesEncrypt` returns is the IV and as many bytes as the plaintext has: no room
  -- is left for the tag of 16 bytes that the layout names.
  pub aes_encrypt-length :
      (draw : ℕ) (plaintext key message : Str)
      → aes_encrypt ssl draw plaintext key ≡ ok message
      → length message ≡ 16 + length plaintext
  unfolding aes_encrypt generate_iv
  aes_encrypt-length draw plaintext key message h =
      grind (arith, encrypt-length, lawful.rand_bytes-length, length-append)

  aes_decrypt-length :
      (message key out : Str)
      → aes_decrypt ssl message key ≡ ok out
      → length out + 32 ≡ length message
  unfolding aes_decrypt
  aes_decrypt-length message key out h = grind (arith, decrypt-length, length-drop)

  -- Whatever the key and the random bytes, `aesDecrypt` never gives back the plaintext of a message
  -- that `aesEncrypt` made.
  pub aes_decrypt-aes_encrypt_never :
      (draw : ℕ) (plaintext key message : Str)
      → aes_encrypt ssl draw plaintext key ≡ ok message
      → aes_decrypt ssl message key ≢ ok plaintext
  aes_decrypt-aes_encrypt_never draw plaintext key message h e = absurd (
      omega (
        arith,
        aes_encrypt-length draw plaintext key message h,
        aes_decrypt-length message key plaintext e,
      ))

cut : (n : ℕ) (xs ys : Str) → length xs ≡ n → (take n (xs ++ ys) ≡ xs) × (drop n (xs ++ ys) ≡ ys)
cut n xs ys h = rw (← h) (take-append_self xs ys, drop-append_self xs ys)

module _ (ssl : OpenSsl) where
  -- The calls that open a ciphertext with a tag.
  pub opened : Str → Str → Str → Str → Result Error Str
  opened ciphertext tag key iv = do
    new ← check ssl.cipher_ctx_new "EVP_CIPHER_CTX_new"
    ctx ← check (ssl.decrypt_init new key iv) "EVP_EncryptInit_ex/EVP_DecryptInit_ex"
    ctx1 ← check (ssl.set_tag ctx tag) "EVP_CTRL_GCM_SET_TAG"
    (body, ctx2) ← check (ssl.decrypt_update ctx1 ciphertext) "EVP_DecryptUpdate"
    (rest, ctx3) ← or_throw (ssl.decrypt_final ctx2) tampered_data
    ok (body ++ rest)

  decrypt-opened :
      (ciphertext tag key iv : Str)
      → length tag ≡ 16
      → decrypt ssl (ciphertext ++ tag) key iv ≡ opened ciphertext tag key iv
  unfolding decryption opened
  decrypt-opened ciphertext tag key iv k =
      let long : ltb (length (ciphertext ++ tag)) 16 ≡ false =
        ground (arith, length-append ciphertext tag) in
      let front : length (ciphertext ++ tag) - 16 ≡ length ciphertext =
        omega (arith, length-append ciphertext tag) in
      rw decrypt-decryption
        (simp (long, front, drop-append_self ciphertext tag, take-append_self ciphertext tag))

  -- `aesDecrypt` reads the layout that the source documents, an IV of 16 bytes, the ciphertext and
  -- a tag of 16 bytes: it opens that ciphertext with that tag and that IV.
  pub aes_decrypt_layout :
      (iv ciphertext tag key : Str)
      → length iv ≡ 16
      → length tag ≡ 16
      → aes_decrypt ssl (iv ++ (ciphertext ++ tag)) key ≡ opened ciphertext tag key iv
  unfolding aes_decrypt
  aes_decrypt_layout iv ciphertext tag key h k = ground (
    arith,
    length-append iv (ciphertext ++ tag),
    cut 16 iv (ciphertext ++ tag) h,
    decrypt-opened ciphertext tag key iv k,
  )
