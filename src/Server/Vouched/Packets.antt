-- ===== src/Server/Vouched/Packets.antt =====
-- The packets that the server has written to one session.
use nullchat.Base.{
  ℕ, ◌+◌, ◌<◌, ◌^◌, ◌≡◌, refl, ap, ◌∙◌, Str, true, List, [], ◌∷◌, ◌++◌, length, eqb, if◌then◌else◌,
  arith, All, Bool-cases, inl, inr,
}
use nullchat.Qt.{Qt}
use nullchat.Protocol.{Packet, header_bytes, store, serialize}
use nullchat.Protocol.Bytes.{Fits, IsNamed}
use nullchat.Protocol.Framing.Delivery.{stream}
use nullchat.Database.{UserRecord}
use nullchat.Server.Vouched.{vouches, Told}

-- What has been written to a session, as its socket carries it.
abbrev pub bytes_to : ℕ → List (ℕ × Str) → Str
bytes_to h [] = []
bytes_to h ((i, bytes) ∷ sent) =
    let rest = bytes_to h sent in if eqb i h then bytes ++ rest else rest

module _ (q : Qt) (us : List UserRecord) where
  abbrev pub Says : Packet → Type 0
  Says p = IsNamed p.type × (vouches q us p.type (q.parse p.body) ≡ true)

  pub packets_to : (h : ℕ) (sent : List (ℕ × Str)) → Told q us sent → List Packet
  packets_to h [] told = []
  packets_to h (e ∷ sent) told =
      let rest = packets_to h sent told.1 in if eqb e.0 h then told.0.pkt ∷ rest else rest

  pub stream-packets_to :
      (h : ℕ) (sent : List (ℕ × Str)) (told : Told q us sent)
      → stream q (packets_to h sent told) ≡ bytes_to h sent
  unfolding packets_to
  stream-packets_to h [] told = refl
  stream-packets_to h ((i, bytes) ∷ sent) told = elim (Bool-cases (eqb i h)) [
    | inl own ↦ rw (own, packets_to, told.0.written, stream-packets_to h sent told.1)
    | inr other ↦ rw (other, packets_to) (stream-packets_to h sent told.1)
  ]

  pub Says-packets_to :
      (h : ℕ) (sent : List (ℕ × Str)) (told : Told q us sent) → All Says (packets_to h sent told)
  unfolding packets_to
  Says-packets_to h [] told = tt
  Says-packets_to h ((i, bytes) ∷ sent) told = elim (Bool-cases (eqb i h)) [
    | inl own ↦ rw (own, packets_to) ((told.0.typed, told.0.vouched), Says-packets_to h sent told.1)
    | inr other ↦ rw (other, packets_to) (Says-packets_to h sent told.1)
  ]

  pub length-serialize : (p : Packet) → length (serialize q p) ≡ length p.body + 6
  unfolding serialize header_bytes store
  length-serialize p = omega arith

  pub Fits-packets_to :
      (h : ℕ) (sent : List (ℕ × Str)) (told : Told q us sent)
      → All (λ e. length e.1 < 2 ^ 32) sent
      → All Fits (packets_to h sent told)
  unfolding packets_to
  Fits-packets_to h [] told small = tt
  Fits-packets_to h ((i, bytes) ∷ sent) told small = elim (Bool-cases (eqb i h)) [
    | inl own ↦
        let same = ap (λ s. length s) told.0.written ∙ length-serialize told.0.pkt in
        rw (own, packets_to) (omega arith, Fits-packets_to h sent told.1 small.1)
    | inr other ↦ rw (other, packets_to) (Fits-packets_to h sent told.1 small.1)
  ]
