-- ===== src/Crypto/Digest.antt =====
-- `Crypto::sha256`: the digest in lower-case hexadecimal, as the user table stores it.
use nullchat.Base.{ℕ, ◌*◌, ◌/◌, ◌%◌, ◌≡◌, refl, Str, [], ◌∷◌, length, arith}
use nullchat.Crypto.{OpenSsl, IsOpenSsl, hex_digit, hex, sha256}

length-hex : (s : Str) → length (hex s) ≡ 2 * length s
unfolding hex
length-hex [] = refl
length-hex (b ∷ s) = omega (arith, length-hex s)

hex_digit-inj : (m n : ℕ) → hex_digit m ≡ hex_digit n → m ≡ n
unfolding hex_digit
hex_digit-inj m n h = ground arith

hex-inj : (s t : Str) → hex s ≡ hex t → s ≡ t
unfolding hex
hex-inj [] [] h = refl
hex-inj [] (c ∷ t) h = cc
hex-inj (b ∷ s) [] h = cc
hex-inj (b ∷ s) (c ∷ t) h =
    ground (arith, hex_digit-inj (b / 16) (c / 16), hex_digit-inj (b % 16) (c % 16), hex-inj s t)

module _ (ssl : OpenSsl) (lawful : IsOpenSsl ssl) where
  -- The text has 64 characters, and two passwords have one text only if they have one digest.
  pub sha256_lem :
      (s t : Str)
      → (length (sha256 ssl s) ≡ 64) × (sha256 ssl s ≡ sha256 ssl t → ssl.digest s ≡ ssl.digest t)
  unfolding sha256
  sha256_lem s t = (
    omega (arith, length-hex (ssl.digest s), lawful.digest-length s),
    hex-inj (ssl.digest s) (ssl.digest t),
  )
