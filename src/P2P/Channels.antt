-- ===== src/P2P/Channels.antt =====
-- Channels that offers open, and what is encrypted.
use nullchat.Base.{
  ◌≡◌, ◌≢◌, Str, true, some, List, [], ◌∷◌, ◌++◌, length, Result-cases, ok, err, arith, inl, inr,
}
use nullchat.Base.Map.{find, find-insert}
use nullchat.Crypto.{OpenSsl, Error}
use nullchat.Crypto.Ecdh.{EcKeys, ecdh_derive, ecdh_derive-length}
use nullchat.ClientCrypto.{ClientCrypto, generate_ecdh}
use nullchat.P2P.{P2PManager, P2PChannel, has_session, channel_key, handle_offer}

module _ (ec : EcKeys) (ssl : OpenSsl) where
  -- An offer that is handled without an exception opens a channel to its sender with a key of 32
  -- bytes, replaces no other channel, and is signalled once; one that ends in an exception changes
  -- no channel.
  pub handle_offer_lem :
      (from_id public_key peer_id : Str) (m : P2PManager)
      → let (done, m') = handle_offer ec ssl from_id public_key m in
        (done ≡ ok tt
          → (has_session m' from_id ≡ true)
            × ((key : Str) × (channel_key m' from_id ≡ some key) × (length key ≡ 32))
            × (m'.signals ≡ m.signals ++ from_id ∷ []))
        × (peer_id ≢ from_id → find peer_id m'.channels ≡ find peer_id m.channels)
        × ((why : Error) → done ≡ err why → m'.channels ≡ m.channels)
  unfolding handle_offer has_session
  handle_offer_lem from_id public_key peer_id m =
      let (made, crypto) = generate_ecdh ec m.crypto in
      elim (Result-cases made) [
        | inl (why, failed) ↦ (λ done. ground arith, λ other. ground arith, λ e done. ground arith)
        | inr (pair, opened) ↦
            elim (Result-cases (ecdh_derive ec ssl pair.private_key public_key)) [
              | inl (why, failed) ↦
                  (λ done. ground arith, λ other. ground arith, λ e done. ground arith)
              | inr (key, derived) ↦
                  let ch : P2PChannel = record {
                    peer_id = from_id;
                    peer_username = [];
                    session_key = key;
                    connected = true;
                  } in
                  let found = find-insert from_id from_id ch m.channels in
                  let size = ecdh_derive-length ec ssl pair.private_key public_key key derived in
                  (
                    λ done.
                        (ground (arith, found), (key, ground (arith, found), size), ground arith),
                    λ other. ground (arith, find-insert peer_id from_id ch m.channels),
                    λ e done. ground arith,
                  )
            ]
      ]

  -- The manager after a list of offers, given by sender and public key.
  pub handle_offers : List (Str × Str) → P2PManager → P2PManager
  handle_offers [] m = m
  handle_offers ((from_id, public_key) ∷ offers) m =
      handle_offers offers (handle_offer ec ssl from_id public_key m).1
