-- ===== src/Crypto/Sample.antt =====
-- A toy OpenSSL that meets the assumptions, for the examples. It is no cipher: a ciphertext is its
-- plaintext, and a tag is sixteen times the first byte of the key.
use nullchat.Base.{
  ◌%◌, ◌≡◌, Str, Option, none, some, [], length, length-replicate, replicate, get_or, ite, arith,
  Str-discrete,
}
use nullchat.Crypto.{OpenSsl, IsOpenSsl}

-- The tag that the context has written, or that it expects.
abbrev Context : Type 0
Context = Str × Str

tag_of : Str → Str
tag_of key = replicate 16 (get_or key 0 0)

finish : Context → Option (Str × Context)
finish (made, expected) = ite (Str-discrete made expected) (some ([], (made, expected))) none

-- The first byte of a text, filled up to 32 bytes.
toy_digest : Str → Str
toy_digest s = replicate 32 (get_or s 0 0 % 256)

unfoldable pub sample : OpenSsl
unfolding tag_of finish toy_digest Str-discrete
sample = record {
  Ctx = Context;
  cipher_ctx_new = some ([], []);
  encrypt_init = λ c key iv. some (tag_of key, []);
  decrypt_init = λ c key iv. some (tag_of key, []);
  encrypt_update = λ c s. some (s, c);
  encrypt_final = λ c. some ([], c);
  decrypt_update = λ c s. some (s, c);
  decrypt_final = finish;
  get_tag = λ c. some (replicate 16 (get_or c.0 0 0));
  set_tag = λ c tag. some (c.0, tag);
  rand_bytes = λ draw n. some (replicate n (draw % 256));
  digest = toy_digest;
}

finish-length : (c d : Context) (out : Str) → finish c ≡ some (out, d) → length out ≡ 0
unfolding finish
finish-length (made, expected) d out h = ground arith

pub sample-IsOpenSsl : IsOpenSsl sample
unfolding sample
sample-IsOpenSsl = record {
  encrypt_update-length = λ c d s out h. ground arith;
  encrypt_final-length = λ c d out h. ground arith;
  decrypt_update-length = λ c d s out h. ground arith;
  decrypt_final-length = finish-length;
  get_tag-length = λ c tag h. ground arith;
  rand_bytes-length = λ draw n s h. ground (arith, length-replicate n (draw % 256));
  digest-length = λ s. length-replicate 32 (get_or s 0 0 % 256);
}
