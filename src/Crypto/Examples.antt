-- ===== src/Crypto/Examples.antt =====
-- Encryption and decryption by the toy OpenSSL.
use nullchat.Base.{◌≡◌, ◌≢◌, refl, Str, [], ◌∷◌, ◌++◌, replicate, ok}
use nullchat.Crypto.{aes_encrypt, aes_decrypt, generate_iv, encrypt}
use nullchat.Crypto.Buffer.{resize, write}
use nullchat.Crypto.Gcm.{aes_decrypt-aes_encrypt_never}
use nullchat.Crypto.Sample.{sample, sample-IsOpenSsl}

abbrev key : Str
key = replicate 32 3

abbrev secret : Str
secret = 1 ∷ 2 ∷ 3 ∷ []

abbrev message : Str
message = replicate 16 5 ++ secret

made : aes_encrypt sample 5 secret key ≡ ok message
unfolding aes_encrypt generate_iv encrypt sample resize write
made = refl

aes_decrypt-aes_encrypt_never_example : aes_decrypt sample message key ≢ ok secret
aes_decrypt-aes_encrypt_never_example =
    aes_decrypt-aes_encrypt_never sample sample-IsOpenSsl 5 secret key message made
