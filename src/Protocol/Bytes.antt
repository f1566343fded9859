-- ===== src/Protocol/Bytes.antt =====
-- A packet's bytes: the header in network order, whatever the host's order, and the body behind it.
use nullchat.Base.{
  ℕ, ◌/◌, ◌%◌, ◌^◌, ◌≤◌, ◌<◌, ◌≡◌, refl, ap, ◌∙◌, Str, List, [], ◌∷◌, ◌++◌, length, get_or, arith,
  zero, suc,
}
use nullchat.Qt.{Qt, IsQt, word}
use nullchat.Protocol.{
  MessageType, other, message_types, of_byte, to_byte, Packet, store, load, header_bytes, serialize,
}

-- A length that the header can hold.
abbrev pub Fits : Packet → Type 0
Fits p = length p.body < 2 ^ 32

-- A value of the enumeration: an enumerator, or another `uint8_t`.
abbrev pub IsType : MessageType → Type 0
IsType (other n) = 24 ≤ n
IsType _ = Unit {0}

-- An enumerator.
abbrev pub IsNamed : MessageType → Type 0
IsNamed (other n) = ⊥
IsNamed _ = Unit {0}

pub IsNamed-IsType : (t : MessageType) → IsNamed t → IsType t
IsNamed-IsType MessageType.auth_login h = tt
IsNamed-IsType (other n) h = absurd h
IsNamed-IsType _ h = tt

-- The four bytes of a length, the most significant first.
abbrev pub big_endian : ℕ → Str
big_endian n = n / 16777216 % 256 ∷ n / 65536 % 256 ∷ n / 256 % 256 ∷ n % 256 ∷ []

module _ {ℓ} {A : Type ℓ} where
  get_or_beyond : (xs : List A) (n : ℕ) (d : A) → length xs ≤ n → get_or xs n d ≡ d
  get_or_beyond [] n d h = refl
  get_or_beyond (x ∷ xs) zero d h = absurd (omega arith)
  get_or_beyond (x ∷ xs) (suc n) d h = get_or_beyond xs n d (omega arith)

pub of_byte-to_byte : (t : MessageType) → IsType t → of_byte (to_byte t) ≡ t
unfolding of_byte to_byte
of_byte-to_byte MessageType.auth_login h = refl
of_byte-to_byte (other n) h = get_or_beyond message_types n (other n) h
of_byte-to_byte _ h = refl

word-digits :
    (n : ℕ) → n < 2 ^ 32 → n ≡ word (n % 256) (n / 256 % 256) (n / 65536 % 256) (n / 16777216 % 256)
word-digits n h = omega arith

digits-word :
    (a b c d : ℕ)
    → a < 256
    → b < 256
    → c < 256
    → d < 256
    → store (word a b c d) ≡ a ∷ b ∷ c ∷ d ∷ []
unfolding store
digits-word a b c d ha hb hc hd = ground arith

module _ (q : Qt) (lawful : IsQt q) where
  -- What the host stores for a length is the length in network order.
  pub store-to_big_endian : (n : ℕ) → n < 2 ^ 32 → store (q.to_big_endian n) ≡ big_endian n
  store-to_big_endian n h =
      ap (λ m. store (q.to_big_endian m)) (word-digits n h)
      ∙ ap store (
          lawful.to_big_endian_word (n % 256) (n / 256 % 256) (n / 65536 % 256) (n / 16777216 % 256)
            (omega arith) (omega arith) (omega arith) (omega arith))
      ∙ digits-word (n / 16777216 % 256) (n / 65536 % 256) (n / 256 % 256) (n % 256) (omega arith)
          (omega arith) (omega arith) (omega arith)

  -- And a length in network order is read back.
  pub from_big_endian-load :
      (n : ℕ) (rest : Str) → n < 2 ^ 32 → q.from_big_endian (load (big_endian n ++ rest)) ≡ n
  unfolding load
  from_big_endian-load n rest h =
      lawful.from_big_endian_word (n / 16777216 % 256) (n / 65536 % 256) (n / 256 % 256) (n % 256)
        (omega arith) (omega arith) (omega arith) (omega arith)
      ∙ omega arith

  -- The bytes of a packet are its length in network order, its type, the version 1 and its body.
  pub serialize_bytes :
      (p : Packet)
      → Fits p
      → serialize q p ≡ big_endian (length p.body) ++ to_byte p.type ∷ 1 ∷ p.body
  unfolding serialize header_bytes
  serialize_bytes p h =
      let e : length p.body % 2 ^ 32 ≡ length p.body = omega arith in
      rw e (ap (λ s. s ++ to_byte p.type ∷ 1 ∷ p.body) (store-to_big_endian (length p.body) h))
