-- ===== src/Protocol/Framing.antt =====
-- The loop by which `Session::onReadyRead` (src/server/Session.cpp) and
-- `ClientNetwork::onReadyRead` (src/client/network/ClientNetwork.cpp) cut a byte stream into
-- packets. The two differ in `decode`, how the loop reads the header's length, and in `handle`,
-- what it does with a packet.
pub mod Stream
pub mod Delivery
pub mod Prefix
use nullchat.Base.{
  ℕ, zero, suc, ◌+◌, Str, Bool, true, false, not, length, take, drop, ltb, eqb, if◌then◌else◌,
}
use nullchat.Protocol.{header_size, protocol_version, read_header}

-- What the head of the buffer holds: too few bytes, a header of another version, or a packet.
pub data Frame : Type 0 where
  waiting : Frame
  mismatch : Frame
  packet : ℕ → Str → Str → Frame

-- The buffer that is left, the state after the handled packets, and whether the loop met a header
-- of another version and closed the connection.
pub record Drained {ℓ} (S : Type ℓ) : Type ℓ where
  pub buffer : Str
  pub state : S
  pub closed : Bool

module _ (decode : ℕ → ℕ) where
  unfoldable pub next_frame : Str → Frame
  next_frame b =
      let hdr = read_header b in
      let n = decode hdr.size in
      if ltb (length b) header_size
      then waiting
      else if not (eqb hdr.version protocol_version)
      then mismatch
      else if ltb (length b) (header_size + n)
      then waiting
      else packet hdr.type (take n (drop header_size b)) (drop (header_size + n) b)

  module _ {ℓ} {S : Type ℓ} (handle : ℕ → Str → S → S) where
    -- The fuel bounds the rounds of the loop.
    unfoldable pub read_loop : ℕ → Str → S → Drained S
    read_loop zero b s = record { buffer = b; state = s; closed = false }
    read_loop (suc fuel) b s = elim (next_frame b) [
      | waiting ↦ record { buffer = b; state = s; closed = false }
      | mismatch ↦ record { buffer = b; state = s; closed = true }
      | packet type body rest ↦ read_loop fuel rest (handle type body s)
    ]

    -- Each round takes a header off the buffer, so the buffer's length is fuel enough.
    unfoldable pub drain : Str → S → Drained S
    unfolding read_loop
    drain b s = read_loop (length b) b s
