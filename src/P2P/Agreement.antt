-- ===== src/P2P/Agreement.antt =====
-- The key of a channel, and what the peer that made the offer needs to get it.
use nullchat.Base.{ℕ, ◌≡◌, Str, some, ok, inl, inr, Result-cases, arith, [], true}
use nullchat.Base.Map.{find-insert}
use nullchat.Crypto.{OpenSsl}
use nullchat.Crypto.Ecdh.{EcKeys, KeyPair, generate_ecdh_key_pair, ecdh_derive}
use nullchat.Crypto.Rsa.{RsaCalls}
use nullchat.Crypto.Keys.{IsPem, IsEcdh, ecdh_derive_agrees}
use nullchat.ClientCrypto.{generate_ecdh}
use nullchat.ClientCrypto.Own.{IsKeygen, generated_ecdh}
use nullchat.P2P.{P2PManager, P2PChannel, channel_key, handle_offer}

module _ (ec : EcKeys) (rsa : RsaCalls ec) (public : ec.Key → ec.Key) (OnCurve : ec.Key → Type 0)
    (keygen : IsKeygen ec rsa public OnCurve) (pem : IsPem ec public)
    (lawful : IsEcdh ec public OnCurve) (ssl : OpenSsl) where
  -- An offer with the public key of a pair that was generated, handled without an exception, opens a
  -- channel whose key the peer can derive as well, from its own private key and from the public key
  -- that the manager has generated while it handled the offer.
  pub handle_offer_agrees :
      (from_id : Str) (n : ℕ) (peer : KeyPair) (m : P2PManager)
      → generate_ecdh_key_pair ec n ≡ ok peer
      → (handle_offer ec ssl from_id peer.public_key m).0 ≡ ok tt
      → let m' = (handle_offer ec ssl from_id peer.public_key m).1 in
        (key : Str) × (channel_key m' from_id ≡ some key)
        × (generate_ecdh_key_pair ec m.crypto.keys_drawn ≡ ok m'.crypto.ecdh_keypair)
        × (ecdh_derive ec ssl peer.private_key m'.crypto.ecdh_keypair.public_key ≡ ok key)
  unfolding handle_offer generate_ecdh
  handle_offer_agrees from_id n peer m made done =
      let (k, on_k, r) = generated_ecdh ec rsa public OnCurve keygen n peer made in
      elim (Result-cases (generate_ecdh_key_pair ec m.crypto.keys_drawn)) [
        | inl (why, fails) ↦ absurd (ground arith)
        | inr (pair, fresh) ↦
            let (j, on_j, p) =
              generated_ecdh ec rsa public OnCurve keygen m.crypto.keys_drawn pair fresh in
            let (key, own, theirs) =
              ecdh_derive_agrees ec public OnCurve pem lawful ssl j k pair peer on_j on_k p r in
            let ch : P2PChannel = record {
              peer_id = from_id;
              peer_username = [];
              session_key = key;
              connected = true;
            } in
            let found = find-insert from_id from_id ch m.channels in
            (key, ground (arith, found), ground arith, ground arith)
      ]
