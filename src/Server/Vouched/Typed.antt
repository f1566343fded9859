-- ===== src/Server/Vouched/Typed.antt =====
-- Each write of the server is one packet, as `Packet::deserialize` reads it.
use nullchat.Base.{
  ℕ, ◌<◌, ◌^◌, ◌≡◌, ap, ◌∙◌, Str, true, ok, List, [], ◌∷◌, length, append-nil, sym, arith, All,
}
use nullchat.Qt.{Qt, IsQt}
use nullchat.Crypto.{OpenSsl}
use nullchat.Protocol.{Packet, serialize, deserialize}
use nullchat.Protocol.Bytes.{IsNamed, IsNamed-IsType}
use nullchat.Protocol.RoundTrip.{deserialize-serialize}
use nullchat.Database.{Database, UserRecord}
use nullchat.Server.State.{Server, initial}
use nullchat.Server.Reachable.{Reach}
use nullchat.Server.Vouched.{vouches, Told}
use nullchat.Server.Vouched.Packets.{length-serialize}
use nullchat.Server.Vouched.Reach.{Reach-Vouching}

-- The bytes are exactly one packet, its type has a name, and what it says is borne out.
abbrev pub IsOnePacket : Qt → List UserRecord → Str → Type 0
IsOnePacket q us bytes =
    (p : Packet) × (deserialize q bytes ≡ ok p)
    × (bytes ≡ serialize q p)
    × IsNamed p.type
    × (vouches q us p.type (q.parse p.body) ≡ true)

module _ (q : Qt) (lawful : IsQt q) where
  typed :
      (us : List UserRecord) (sent : List (ℕ × Str))
      → All (λ e. length e.1 < 2 ^ 32) sent
      → Told q us sent
      → All (λ e. IsOnePacket q us e.1) sent
  typed us [] small told = tt
  typed us (e ∷ sent) small told =
      let p = told.0.pkt in
      let size = ap (λ s. length s) told.0.written ∙ length-serialize q us p in
      let read =
        deserialize-serialize q lawful p [] (omega arith) (IsNamed-IsType p.type told.0.typed) in
      let whole = told.0.written ∙ sym (append-nil (serialize q p)) in
      (
        (p, ap (deserialize q) whole ∙ read, told.0.written, told.0.typed, told.0.vouched),
        typed us sent small.1 told.1,
      )

  -- After every sequence of socket events, each write of the server, if it is shorter than 2 ^ 32
  -- bytes, is exactly one packet: `deserialize` reads it back, its type is an enumerator, and the
  -- user table bears it out: a message and an offer name an account as their sender, each other signal
  -- for a peer has the id of one, each notice that a user has come or gone names an account and has no
  -- public key, and an answer to credentials names an account or nobody. There is no answer to a
  -- request for a key, no mention and no report of an error.
  pub deserialize-Reach :
      (ssl : OpenSsl) (db : Database) {w : Server}
      → Reach q ssl (initial db) w
      → All (λ e. length e.1 < 2 ^ 32) w.sent
      → All (λ e. IsOnePacket q w.db.users e.1) w.sent
  deserialize-Reach ssl db {w} r small =
      typed w.db.users w.sent small (Reach-Vouching q lawful ssl db r)
