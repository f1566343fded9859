-- ===== src/Protocol/Framing/Prefix.antt =====
-- The part of a stream that has arrived so far, read by the loop of the client.
use nullchat.Base.{ℕ, ◌≡◌, refl, sym, ap, ◌∙◌, inl, inr, Str, false, List, [], ◌∷◌, ◌++◌, All}
use nullchat.Qt.{Qt, IsQt}
use nullchat.Protocol.{Packet, to_byte}
use nullchat.Protocol.Bytes.{Fits}
use nullchat.Protocol.Framing.{Drained, waiting, next_frame, drain}
use nullchat.Protocol.Framing.Stream.{
  drain_packet, drain_waiting, packet-append, mismatch-append, Frame-cases, next_frame-nil,
}
use nullchat.Protocol.Framing.Delivery.{stream, handle_all, next_frame-serialize}

-- The loop has handled the first packets of a stream and no other: what it leaves is the beginning
-- of the next one, and less than a packet.
pub record Reads {S : Type 0} (q : Qt) (handle : ℕ → Str → S → S) (ps : List Packet) (later : Str)
    (s : S) (r : Drained S) : Type 0 where
  pub handled : List Packet
  pub left : List Packet
  pub all_of : ps ≡ handled ++ left
  pub state : r.state ≡ handle_all handle handled s
  pub buffer : r.buffer ++ later ≡ stream q left
  pub incomplete : next_frame q.from_big_endian r.buffer ≡ waiting
  pub closed : r.closed ≡ false

module _ (q : Qt) (lawful : IsQt q) {S : Type 0} (handle : ℕ → Str → S → S) where
  waits :
      (ps : List Packet) (b later : Str) (s : S)
      → b ++ later ≡ stream q ps
      → next_frame q.from_big_endian b ≡ waiting
      → Reads q handle ps later s (record { buffer = b; state = s; closed = false })
  waits ps b later s part e = record {
    handled = [];
    left = ps;
    all_of = refl;
    state = refl;
    buffer = part;
    incomplete = e;
    closed = refl;
  }

  -- One packet more in front.
  next_packet :
      (p : Packet) (ps : List Packet) (later : Str) (s : S) (r : Drained S)
      → Reads q handle ps later (handle (to_byte p.type) p.body s) r
      → Reads q handle (p ∷ ps) later s r
  next_packet p ps later s r reads = record {
    handled = p ∷ reads.handled;
    left = reads.left;
    all_of = ap (λ qs. p ∷ qs) reads.all_of;
    state = reads.state;
    buffer = reads.buffer;
    incomplete = reads.incomplete;
    closed = reads.closed;
  }

  -- When some part of a stream of packets, with bodies of less than 2 ^ 32 bytes, has arrived, the
  -- client's loop has handled those packets that are complete, one by one and in order, and keeps
  -- the bytes behind them, which are less than a packet.
  pub drain_prefix :
      (ps : List Packet) (b later : Str) (s : S)
      → All Fits ps
      → b ++ later ≡ stream q ps
      → Reads q handle ps later s (drain q.from_big_endian handle b s)
  drain_prefix [] [] later s fit part =
      rw (drain_waiting q.from_big_endian handle [] s (next_frame-nil q.from_big_endian))
        (waits [] [] later s part (next_frame-nil q.from_big_endian))
  drain_prefix [] (x ∷ b) later s fit part = cc
  drain_prefix (p ∷ ps) b later s fit part =
      let first =
        ap (next_frame q.from_big_endian) part
        ∙ next_frame-serialize q lawful p (stream q ps) fit.0 in
      elim (Frame-cases (next_frame q.from_big_endian b)) [
        | inl e ↦
            rw (drain_waiting q.from_big_endian handle b s e) (waits (p ∷ ps) b later s part e)
        | inr (inl e) ↦ cc (first, mismatch-append q.from_big_endian b later e)
        | inr (inr (type, body, rest, e)) ↦
            let same = sym (packet-append q.from_big_endian b later e) ∙ first in
            let type' : type ≡ to_byte p.type = cc in
            let body' : body ≡ p.body = cc in
            let rest' : rest ++ later ≡ stream q ps = cc in
            rw (drain_packet q.from_big_endian handle b s e, type', body')
              (next_packet p ps later s _
                (drain_prefix ps rest later (handle (to_byte p.type) p.body s) fit.1 rest'))
      ]
