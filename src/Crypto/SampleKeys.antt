-- ===== src/Crypto/SampleKeys.antt =====
-- Toy keys that meet the assumptions, for the examples. A key is a number, public and private alike,
-- and nothing is kept secret: a ciphertext is its plaintext, a signature the data that it signs.
use nullchat.Base.{ℕ, ◌+◌, refl, Str, some, [], ◌∷◌, length, get_or, ite, Str-discrete, arith}
use nullchat.Base.Int.{pos}
use nullchat.Crypto.Ecdh.{EcKeys}
use nullchat.Crypto.Rsa.{RsaCalls}
use nullchat.Crypto.Keys.{IsPem, IsRsa, IsEcdh}

abbrev pub ec : EcKeys
ec = record {
  Key = ℕ;
  Ctx = ℕ × ℕ;
  Bio = Str;
  ctx_new_id = some (0, 0);
  keygen_init = λ c. some c;
  set_curve = λ c. some c;
  keygen = λ n c. some n;
  bio_new = some [];
  write_private_key = λ b k. some (k ∷ []);
  write_pubkey = λ b k. some (k ∷ []);
  bio_new_mem_buf = λ pem. some pem;
  read_private_key = λ b. some (get_or b 0 0);
  read_pubkey = λ b. some (get_or b 0 0);
  ctx_new = λ k. some (k, 0);
  derive_init = λ c. some c;
  derive_set_peer = λ c k. some (c.0, k);
  derive_size = λ c. some 1;
  derive = λ c. some ((c.0 + c.1) ∷ []);
}

unfoldable pub rsa : RsaCalls ec
unfolding Str-discrete
rsa = record {
  MdCtx = ℕ;
  ctx_new_id = some (0, 0);
  set_keygen_bits = λ c n. some c;
  set_padding = λ c padding. some c;
  encrypt_init = λ c. some c;
  encrypt_size = λ c s. some (length s);
  encrypt = λ draw c s. some s;
  decrypt_init = λ c. some c;
  decrypt_size = λ c s. some (length s);
  decrypt = λ c s. some s;
  md_ctx_new = some 0;
  sign_init = λ m k. some k;
  sign_size = λ m s. some (length s);
  sign = λ m s. some s;
  verify_init = λ m k. some k;
  verify = λ m sig s. ite (Str-discrete sig s) (pos 1) (pos 0);
}

abbrev pub public : ec.Key → ec.Key
public key = key

abbrev pub OnCurve : ec.Key → Type 0
OnCurve key = Unit

pub ec-IsPem : IsPem ec public
ec-IsPem = record {
  bio_new_mem_buf = λ pem. (pem, refl);
  read_private_key = λ bio from key pem wrote opened. ground arith;
  read_pubkey = λ bio from key pem wrote opened. ground arith;
}

pub rsa-IsRsa : (key : ec.Key) → IsRsa ec rsa public key
unfolding rsa
rsa-IsRsa key = record {
  ctx_new = ((key, 0), refl);
  decrypt_init = λ b e. (b, refl);
  set_padding = λ padding b b1 e e1. (b1, refl);
  decrypt_size = λ padding b b1 b2 s e e1 e2. (length s, refl);
  verify_init = λ m. (key, refl);
  decrypt-encrypt = λ padding draw a a1 a2 b b1 b2 s t e e1 e2 e3 f f1 f2. ground arith;
  verify-sign = λ a a1 b b1 s sig e e1 f. ground arith;
}

pub ec-IsEcdh : IsEcdh ec public OnCurve
ec-IsEcdh = record {
  ctx_new = λ j on. ((j, 0), refl);
  derive_init = λ j a on e. (a, refl);
  derive_set_peer = λ j k a a1 on_j on_k e e1. ((a1.0, k), refl);
  derive_size = λ k a1 a2 e. (1, refl);
  derive = λ k a1 a2 e. ((a2.0 + a2.1) ∷ [], refl);
  derive_agrees = λ j k a a1 a2 b b1 b2 on_j on_k e e1 e2 f f1 f2. ground arith;
}
