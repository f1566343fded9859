-- ===== src/Crypto/Keys.antt =====
-- Key pairs of src/common/Crypto.cpp in use: what one half of a pair has made, the other half takes
-- back, and two pairs agree on a key. What OpenSSL documents of its keys is the hypothesis.
use nullchat.Base.{ℕ, ◌≡◌, Str, true, Option, some, ok, refl, ap, arith, ◌≢◌, none, replicate}
use nullchat.Base.Int.{pos}
use nullchat.Crypto.{OpenSsl, aes_key_size}
use nullchat.Crypto.Buffer.{resize}
use nullchat.Crypto.Ecdh.{EcKeys, KeyPair, pem_to_evp_pkey, pem_to_evp_public_key, ecdh_derive}
use nullchat.Crypto.Rsa.{
  Padding, pkcs1_oaep_padding, RsaCalls, rsa_encrypt, rsa_decrypt, rsa_sign, rsa_verify,
  resize-write,
}

-- A call that does not fail.
abbrev pub Runs {ℓ} : {A : Type ℓ} → Option A → Type ℓ
Runs {A = A} o = (a : A) × (o ≡ some a)

pub runs {ℓ} : {A : Type ℓ} (o : Option A) → o ≢ none → Runs o
runs none failed = absurd (failed refl)
runs (some a) failed = (a, refl)

-- PEM texts: a memory buffer can be made of any text, and what was written of a key is read back
-- from it, of its public half from a public text.
pub record IsPem (ec : EcKeys) (public : ec.Key → ec.Key) : Type 0 where
  pub bio_new_mem_buf : (pem : Str) → Runs (ec.bio_new_mem_buf pem)
  pub read_private_key :
      (bio from : ec.Bio) (key : ec.Key) (pem : Str)
      → ec.write_private_key bio key ≡ some pem
      → ec.bio_new_mem_buf pem ≡ some from
      → ec.read_private_key from ≡ some key
  pub read_pubkey :
      (bio from : ec.Bio) (key : ec.Key) (pem : Str)
      → ec.write_pubkey bio key ≡ some pem
      → ec.bio_new_mem_buf pem ≡ some from
      → ec.read_pubkey from ≡ some (public key)

-- The texts that OpenSSL writes for one key.
pub record IsPair (ec : EcKeys) (key : ec.Key) (pair : KeyPair) : Type 0 where
  pub bio : ec.Bio
  pub private_key : ec.write_private_key bio key ≡ some pair.private_key
  pub public_key : ec.write_pubkey bio key ≡ some pair.public_key

module _ (ec : EcKeys) (public : ec.Key → ec.Key) (pem : IsPem ec public) where
  -- The two readers give back the key and its public half.
  pub pem_to_evp_pkey_pair :
      (key : ec.Key) (pair : KeyPair)
      → IsPair ec key pair
      → pem_to_evp_pkey ec pair.private_key ≡ ok key
  unfolding pem_to_evp_pkey
  pem_to_evp_pkey_pair key pair p =
      let (from, opened) = pem.bio_new_mem_buf pair.private_key in
      let read = pem.read_private_key p.bio from key pair.private_key p.private_key opened in
      rw (opened, read) refl

  pub pem_to_evp_public_key_pair :
      (key : ec.Key) (pair : KeyPair)
      → IsPair ec key pair
      → pem_to_evp_public_key ec pair.public_key ≡ ok (public key)
  unfolding pem_to_evp_public_key
  pem_to_evp_public_key_pair key pair p =
      let (from, opened) = pem.bio_new_mem_buf pair.public_key in
      let read = pem.read_pubkey p.bio from key pair.public_key p.public_key opened in
      rw (opened, read) refl

-- A key for RSA: no call that prepares a decryption or a verification with it fails, the key decrypts
-- what its public half has encrypted under the same padding, whatever seed was drawn, and the public
-- half accepts what the key has signed. Nothing is said of two different paddings.
pub record IsRsa (ec : EcKeys) (rsa : RsaCalls ec) (public : ec.Key → ec.Key) (key : ec.Key)
    : Type 0 where
  pub ctx_new : Runs (ec.ctx_new key)
  pub decrypt_init : (b : ec.Ctx) → ec.ctx_new key ≡ some b → Runs (rsa.decrypt_init b)
  pub set_padding :
      (padding : Padding) (b b1 : ec.Ctx)
      → ec.ctx_new key ≡ some b
      → rsa.decrypt_init b ≡ some b1
      → Runs (rsa.set_padding b1 padding)
  pub decrypt_size :
      (padding : Padding) (b b1 b2 : ec.Ctx) (ciphertext : Str)
      → ec.ctx_new key ≡ some b
      → rsa.decrypt_init b ≡ some b1
      → rsa.set_padding b1 padding ≡ some b2
      → Runs (rsa.decrypt_size b2 ciphertext)
  pub verify_init : (mdctx : rsa.MdCtx) → Runs (rsa.verify_init mdctx (public key))
  pub decrypt-encrypt :
      (padding : Padding) (draw : ℕ) (a a1 a2 b b1 b2 : ec.Ctx) (plaintext ciphertext : Str)
      → ec.ctx_new (public key) ≡ some a
      → rsa.encrypt_init a ≡ some a1
      → rsa.set_padding a1 padding ≡ some a2
      → rsa.encrypt draw a2 plaintext ≡ some ciphertext
      → ec.ctx_new key ≡ some b
      → rsa.decrypt_init b ≡ some b1
      → rsa.set_padding b1 padding ≡ some b2
      → rsa.decrypt b2 ciphertext ≡ some plaintext
  pub verify-sign :
      (a a1 b b1 : rsa.MdCtx) (data' signature : Str)
      → rsa.sign_init a key ≡ some a1
      → rsa.sign a1 data' ≡ some signature
      → rsa.verify_init b (public key) ≡ some b1
      → rsa.verify b1 signature data' ≡ pos 1

module _ (ec : EcKeys) (rsa : RsaCalls ec) (public : ec.Key → ec.Key) (pem : IsPem ec public)
    (key : ec.Key) (lawful : IsRsa ec rsa public key) (pair : KeyPair)
    (p : IsPair ec key pair) where
  -- How a ciphertext came about that `rsaEncrypt` has returned for the public half of a key.
  encrypted :
      (draw : ℕ) (plaintext ciphertext : Str)
      → rsa_encrypt ec rsa draw plaintext pair.public_key ≡ ok ciphertext
      → (a a1 a2 : ec.Ctx) × (ec.ctx_new (public key) ≡ some a)
        × (rsa.encrypt_init a ≡ some a1)
        × (rsa.set_padding a1 pkcs1_oaep_padding ≡ some a2)
        × (rsa.encrypt draw a2 plaintext ≡ some ciphertext)
  unfolding rsa_encrypt
  encrypted draw plaintext ciphertext made =
      let read = pem_to_evp_public_key_pair ec public pem key pair p in
      let (a, e) = runs (ec.ctx_new (public key)) (λ fails. ground (arith, read)) in
      let (a1, e1) = runs (rsa.encrypt_init a) (λ fails. ground (arith, read)) in
      let (a2, e2) = runs (rsa.set_padding a1 pkcs1_oaep_padding) (λ fails. ground (arith, read)) in
      let (size, e3) = runs (rsa.encrypt_size a2 plaintext) (λ fails. ground (arith, read)) in
      let (out, e4) = runs (rsa.encrypt draw a2 plaintext) (λ fails. ground (arith, read)) in
      (a, a1, a2, e, e1, e2, ground (arith, read, resize-write out (replicate size 0)))

  -- What `rsaEncrypt` makes with the public text of a key pair, `rsaDecrypt` turns back with the
  -- private text of the pair, whatever random seed was drawn.
  pub rsa_decrypt-rsa_encrypt :
      (draw : ℕ) (plaintext ciphertext : Str)
      → rsa_encrypt ec rsa draw plaintext pair.public_key ≡ ok ciphertext
      → rsa_decrypt ec rsa ciphertext pair.private_key ≡ ok plaintext
  unfolding rsa_decrypt
  rsa_decrypt-rsa_encrypt draw plaintext ciphertext made =
      let read = pem_to_evp_pkey_pair ec public pem key pair p in
      let (a, a1, a2, e, e1, e2, e3) = encrypted draw plaintext ciphertext made in
      let (b, f) = lawful.ctx_new in
      let (b1, f1) = lawful.decrypt_init b f in
      let (b2, f2) = lawful.set_padding pkcs1_oaep_padding b b1 f f1 in
      let (size, f3) = lawful.decrypt_size pkcs1_oaep_padding b b1 b2 ciphertext f f1 f2 in
      let back =
        lawful.decrypt-encrypt pkcs1_oaep_padding draw a a1 a2 b b1 b2 plaintext ciphertext e e1 e2
          e3 f f1 f2 in
      rw (read, f, f1, f2, f3, back) (ap ok (resize-write plaintext (replicate size 0)))

  -- A signature that `rsaSign` makes with the private text of a key pair, `rsaVerify` accepts with
  -- the public text of the pair.
  pub rsa_verify-rsa_sign :
      (data' signature : Str)
      → rsa_sign ec rsa data' pair.private_key ≡ ok signature
      → rsa_verify ec rsa data' signature pair.public_key ≡ ok true
  unfolding rsa_sign rsa_verify
  rsa_verify-rsa_sign data' signature made =
      let own = pem_to_evp_pkey_pair ec public pem key pair p in
      let read = pem_to_evp_public_key_pair ec public pem key pair p in
      let (a, e) = runs rsa.md_ctx_new (λ fails. ground (arith, own)) in
      let (a1, e1) = runs (rsa.sign_init a key) (λ fails. ground (arith, own)) in
      let (size, e2) = runs (rsa.sign_size a1 data') (λ fails. ground (arith, own)) in
      let (out, e3) = runs (rsa.sign a1 data') (λ fails. ground (arith, own)) in
      let cut = resize-write out (replicate size 0) in
      let signed : rsa.sign a1 data' ≡ some signature = ground (arith, own, cut) in
      let (b1, f1) = lawful.verify_init a in
      let accepted = lawful.verify-sign a a1 a b1 data' signature e1 signed f1 in
      rw (read, e, f1, accepted) refl

-- Diffie and Hellman with keys of one curve: the calls do not fail, and the secret of one key with
-- the public half of the other is the same either way.
pub record IsEcdh (ec : EcKeys) (public : ec.Key → ec.Key) (OnCurve : ec.Key → Type 0)
    : Type 0 where
  pub ctx_new : (j : ec.Key) → OnCurve j → Runs (ec.ctx_new j)
  pub derive_init :
      (j : ec.Key) (a : ec.Ctx) → OnCurve j → ec.ctx_new j ≡ some a → Runs (ec.derive_init a)
  pub derive_set_peer :
      (j k : ec.Key) (a a1 : ec.Ctx)
      → OnCurve j
      → OnCurve k
      → ec.ctx_new j ≡ some a
      → ec.derive_init a ≡ some a1
      → Runs (ec.derive_set_peer a1 (public k))
  pub derive_size :
      (k : ec.Key) (a1 a2 : ec.Ctx)
      → ec.derive_set_peer a1 (public k) ≡ some a2
      → Runs (ec.derive_size a2)
  pub derive :
      (k : ec.Key) (a1 a2 : ec.Ctx)
      → ec.derive_set_peer a1 (public k) ≡ some a2
      → Runs (ec.derive a2)
  pub derive_agrees :
      (j k : ec.Key) (a a1 a2 b b1 b2 : ec.Ctx)
      → OnCurve j
      → OnCurve k
      → ec.ctx_new j ≡ some a
      → ec.derive_init a ≡ some a1
      → ec.derive_set_peer a1 (public k) ≡ some a2
      → ec.ctx_new k ≡ some b
      → ec.derive_init b ≡ some b1
      → ec.derive_set_peer b1 (public j) ≡ some b2
      → ec.derive a2 ≡ ec.derive b2

module _ (ec : EcKeys) (public : ec.Key → ec.Key) (OnCurve : ec.Key → Type 0)
    (pem : IsPem ec public) (lawful : IsEcdh ec public OnCurve) (ssl : OpenSsl) where
  -- Of two key pairs on one curve, two sides that each derive from their own private text and the other's public text get the same
  -- key, and neither derivation throws.
  pub ecdh_derive_agrees :
      (j k : ec.Key) (own peer : KeyPair)
      → OnCurve j
      → OnCurve k
      → IsPair ec j own
      → IsPair ec k peer
      → (key : Str) × (ecdh_derive ec ssl own.private_key peer.public_key ≡ ok key)
        × (ecdh_derive ec ssl peer.private_key own.public_key ≡ ok key)
  unfolding ecdh_derive
  ecdh_derive_agrees j k own peer on_j on_k p r =
      let own_key = pem_to_evp_pkey_pair ec public pem j own p in
      let own_public = pem_to_evp_public_key_pair ec public pem j own p in
      let peer_key = pem_to_evp_pkey_pair ec public pem k peer r in
      let peer_public = pem_to_evp_public_key_pair ec public pem k peer r in
      let (a, e) = lawful.ctx_new j on_j in
      let (a1, e1) = lawful.derive_init j a on_j e in
      let (a2, e2) = lawful.derive_set_peer j k a a1 on_j on_k e e1 in
      let (m, e3) = lawful.derive_size k a1 a2 e2 in
      let (b, f) = lawful.ctx_new k on_k in
      let (b1, f1) = lawful.derive_init k b on_k f in
      let (b2, f2) = lawful.derive_set_peer k j b b1 on_k on_j f f1 in
      let (n, f3) = lawful.derive_size j b1 b2 f2 in
      let (secret, f4) = lawful.derive j b1 b2 f2 in
      let same = lawful.derive_agrees j k a a1 a2 b b1 b2 on_j on_k e e1 e2 f f1 f2 in
      (
        resize aes_key_size (ssl.digest secret),
        rw (own_key, peer_public, e, e1, e2, e3, same, f4) refl,
        rw (peer_key, own_public, f, f1, f2, f3, f4) refl,
      )
