-- ===== src/P2P/Examples.antt =====
-- Two peers with a toy key agreement: a key is its text, and the agreed secret is the peer's key.
use nullchat.Base.{ℕ, ◌+◌, arith, ◌≡◌, refl, Str, true, some, [], ◌∷◌, length, replicate, ok}
use nullchat.Crypto.Buffer.{resize, write}
use nullchat.Crypto.Ecdh.{
  EcKeys, KeyPair, generate_ecdh_key_pair, pem_to_key, pem_to_public_key, pem_to_evp_public_key,
  ecdh_derive, pem_to_evp_pkey,
}
use nullchat.Crypto.Rsa.{generate_rsa_key_pair, rsa_encrypt, rsa_decrypt}
use nullchat.Crypto.SampleKeys
use nullchat.Crypto.Sample.{sample as ssl}
use nullchat.ClientCrypto.Own.{IsKeygen, rsa_decrypt-encrypt_with_own_key}
use nullchat.ClientCrypto.{ClientCrypto, new_client_crypto, encrypt_with_own_key, generate_ecdh}
use nullchat.P2P.{P2PManager, new_manager, handle_offer, channel_key}
use nullchat.P2P.Agreement.{handle_offer_agrees}

abbrev ec : EcKeys
ec = record {
  Key = Str;
  Ctx = Str;
  Bio = Str;
  ctx_new_id = some [];
  keygen_init = λ c. some c;
  set_curve = λ c. some c;
  keygen = λ n c. some (n ∷ []);
  bio_new = some [];
  write_private_key = λ b k. some k;
  write_pubkey = λ b k. some k;
  bio_new_mem_buf = λ pem. some pem;
  read_private_key = λ b. some b;
  read_pubkey = λ b. some b;
  ctx_new = λ k. some k;
  derive_init = λ c. some c;
  derive_set_peer = λ c k. some k;
  derive_size = λ c. some (length c);
  derive = λ c. some c;
}

abbrev keys : ClientCrypto
keys = record {
  keypair = record { public_key = 9 ∷ []; private_key = 9 ∷ [] };
  ecdh_keypair = record { public_key = 9 ∷ []; private_key = 9 ∷ [] };
  shared_keys = [];
  keys_drawn = 0;
  random_drawn = 0;
}

abbrev bob : Str
bob = b'b' ∷ []

abbrev carol : Str
carol = b'c' ∷ []

-- The key that the toy digest makes of a secret.
abbrev key_of : ℕ → Str
key_of n = replicate 32 n

abbrev with_bob : P2PManager
with_bob = record (new_manager keys) {
  channels =
      (bob, record { peer_id = bob; peer_username = []; session_key = key_of 5; connected = true })
      ∷ [];
}

-- Clients over the toy keys of `SampleKeys`.
keygen-IsKeygen : IsKeygen SampleKeys.ec SampleKeys.rsa SampleKeys.public SampleKeys.OnCurve
keygen-IsKeygen = record {
  keygen_rsa = λ n a a1 a2 key e e1 e2 e3. SampleKeys.rsa-IsRsa key;
  keygen_ec = λ n a a1 a2 key e e1 e2 e3. tt;
}

abbrev pair_of : ℕ → KeyPair
pair_of n = record { public_key = n ∷ []; private_key = n ∷ [] }

-- A client with the keys n and n + 1.
abbrev client_of : ℕ → ClientCrypto
client_of n = record {
  keypair = pair_of n;
  ecdh_keypair = pair_of (n + 1);
  shared_keys = [];
  keys_drawn = n + 2;
  random_drawn = 0;
}

constructs : (n : ℕ) → new_client_crypto SampleKeys.ec SampleKeys.rsa n ≡ ok (client_of n)
unfolding new_client_crypto generate_rsa_key_pair generate_ecdh_key_pair pem_to_key
    pem_to_public_key SampleKeys.rsa
constructs n = ground arith

encrypts :
    (encrypt_with_own_key SampleKeys.ec SampleKeys.rsa
      (7 ∷ 8 ∷ [])
      (record (client_of 3) { random_drawn = 2 })).0
    ≡ ok (7 ∷ 8 ∷ [])
unfolding encrypt_with_own_key rsa_encrypt pem_to_evp_public_key SampleKeys.rsa write resize
encrypts = refl

rsa_decrypt-encrypt_with_own_key_example :
    rsa_decrypt SampleKeys.ec SampleKeys.rsa (7 ∷ 8 ∷ []) (3 ∷ []) ≡ ok (7 ∷ 8 ∷ [])
rsa_decrypt-encrypt_with_own_key_example =
    rsa_decrypt-encrypt_with_own_key SampleKeys.ec SampleKeys.rsa SampleKeys.public
      SampleKeys.OnCurve keygen-IsKeygen SampleKeys.ec-IsPem 3 2 (7 ∷ 8 ∷ []) (7 ∷ 8 ∷ [])
      (client_of 3) (constructs 3) encrypts

abbrev fresh_manager : P2PManager
fresh_manager = new_manager (client_of 3)

generates : (n : ℕ) → generate_ecdh_key_pair SampleKeys.ec n ≡ ok (pair_of n)
unfolding generate_ecdh_key_pair pem_to_key pem_to_public_key
generates n = refl

handles : (handle_offer SampleKeys.ec ssl bob (9 ∷ []) fresh_manager).0 ≡ ok tt
unfolding handle_offer generate_ecdh generate_ecdh_key_pair pem_to_key pem_to_public_key ecdh_derive
    pem_to_evp_pkey pem_to_evp_public_key
handles = refl

handle_offer_agrees_example :
    let m' = (handle_offer SampleKeys.ec ssl bob (9 ∷ []) fresh_manager).1 in
    (key : Str) × (channel_key m' bob ≡ some key)
    × (generate_ecdh_key_pair SampleKeys.ec 5 ≡ ok m'.crypto.ecdh_keypair)
    × (ecdh_derive SampleKeys.ec ssl (9 ∷ []) m'.crypto.ecdh_keypair.public_key ≡ ok key)
handle_offer_agrees_example =
    handle_offer_agrees SampleKeys.ec SampleKeys.rsa SampleKeys.public SampleKeys.OnCurve
      keygen-IsKeygen SampleKeys.ec-IsPem SampleKeys.ec-IsEcdh ssl bob 9 (pair_of 9) fresh_manager
      (generates 9) handles
