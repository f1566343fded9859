-- ===== src/Protocol/Framing/Delivery.antt =====
-- Packets that `Packet::serialize` wrote, read by the loop of the client and by that of the server.
use nullchat.Base.{
  ℕ, ◌+◌, ◌<◌, ◌≡◌, refl, ◌∙◌, Str, false, List, [], ◌∷◌, ◌++◌, length, length-append, arith, All,
  take-append_self, drop-append_self, append_assoc,
}
use nullchat.Qt.{Qt, IsQt}
use nullchat.Protocol.{Packet, to_byte, read_header, load, serialize}
use nullchat.Protocol.Bytes.{Fits, from_big_endian-load, serialize_bytes}
use nullchat.Protocol.Framing.{waiting, packet, next_frame, drain}
use nullchat.Protocol.Framing.Stream.{drain_packet, drain_waiting}

-- The bytes of packets sent one after the other.
abbrev pub stream : Qt → List Packet → Str
stream q [] = []
stream q (p ∷ ps) = serialize q p ++ stream q ps

module _ {ℓ} {S : Type ℓ} (handle : ℕ → Str → S → S) where
  -- What handling packets one after the other does to a state.
  abbrev pub handle_all : List Packet → S → S
  handle_all [] s = s
  handle_all (p ∷ ps) s = handle_all ps (handle (to_byte p.type) p.body s)

module _ (q : Qt) (lawful : IsQt q) where
  -- The client's loop, which decodes with `qFromBigEndian`, finds the packet.
  pub next_frame-serialize :
      (p : Packet) (more : Str)
      → Fits p
      → next_frame q.from_big_endian (serialize q p ++ more) ≡ packet (to_byte p.type) p.body more
  unfolding next_frame read_header
  next_frame-serialize p more h =
      let n = length p.body in
      let tail = to_byte p.type ∷ 1 ∷ p.body ++ more in
      let size = from_big_endian-load q lawful n tail h in
      rw (serialize_bytes q lawful p h) (
        ground (
          arith,
          size,
          take-append_self p.body more,
          drop-append_self p.body more,
          length-append p.body more,
        ))

  -- The client's loop handles the packets of a stream one by one and in order, if each body has
  -- less than 2 ^ 32 bytes, and what arrives behind them is treated as if nothing had come before.
  pub drain-stream :
      {S : Type 0} (handle : ℕ → Str → S → S) (ps : List Packet) (more : Str) (s : S)
      → All Fits ps
      → drain q.from_big_endian handle (stream q ps ++ more) s
        ≡ drain q.from_big_endian handle more (handle_all handle ps s)
  drain-stream handle [] more s h = refl
  drain-stream handle (p ∷ ps) more s h =
      let first = next_frame-serialize p (stream q ps ++ more) h.0 in
      rw (append_assoc (serialize q p) (stream q ps) more) (
        drain_packet q.from_big_endian handle (serialize q p ++ (stream q ps ++ more)) s first
        ∙ drain-stream handle ps more (handle (to_byte p.type) p.body s) h.1)

  stalls :
      (p : Packet) (more : Str)
      → 0 < length p.body
      → length p.body + length more < 65536
      → next_frame (λ n. n) (serialize q p ++ more) ≡ waiting
  unfolding next_frame read_header load
  stalls p more some_body few =
      rw (serialize_bytes q lawful p (omega arith)) (ground (arith, length-append p.body more))

  -- The server's loop takes the length as it lies in memory. A packet with a body that is not empty
  -- then does not come through while the body and what is behind it have less than 65536 bytes
  -- together: all of it stays in the buffer, and nothing is handled.
  pub drain-serialize_stalls :
      {S : Type 0} (handle : ℕ → Str → S → S) (p : Packet) (more : Str) (s : S)
      → 0 < length p.body
      → length p.body + length more < 65536
      → let b = serialize q p ++ more in
        drain (λ n. n) handle b s ≡ record { buffer = b; state = s; closed = false }
  drain-serialize_stalls handle p more s some_body few =
      drain_waiting (λ n. n) handle (serialize q p ++ more) s (stalls p more some_body few)
