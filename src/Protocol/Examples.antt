-- ===== src/Protocol/Examples.antt =====
-- Packets and streams at concrete bytes.
use nullchat.Base.{
  ℕ, ◌≡◌, Str, false, List, [], ◌∷◌, ◌++◌, ok, arith, if◌then◌else◌, take, drop, append-take-drop,
}
use nullchat.Qt.Sample.{sample, sample-IsQt}
use nullchat.Protocol.{text_message, Packet, serialize, deserialize}
use nullchat.Protocol.RoundTrip.{deserialize-serialize}
use nullchat.Protocol.Framing.{drain, next_frame, waiting, mismatch}
use nullchat.Protocol.Framing.Prefix.{Reads, drain_prefix}
use nullchat.Protocol.Framing.Stream.{drain-append, drain_settled, resume}
use nullchat.Protocol.Framing.Delivery.{stream, drain-serialize_stalls}

abbrev greeting : Packet
greeting = record { type = text_message; body = b'h' ∷ b'i' ∷ [] }

-- The bodies that have been handled, newest first.
abbrev note : ℕ → Str → List Str → List Str
note type body seen = body ∷ seen

deserialize-serialize_example :
    deserialize sample (serialize sample greeting ++ 7 ∷ []) ≡ ok greeting
deserialize-serialize_example =
    deserialize-serialize sample sample-IsQt greeting (7 ∷ []) (omega arith) tt

-- Two packets, of which the first has arrived, and two bytes of the second.
abbrev two : Str
two = stream sample (greeting ∷ greeting ∷ [])

drain_prefix_example :
    Reads sample note
      (greeting ∷ greeting ∷ [])
      (drop 10 two)
      []
      (drain sample.from_big_endian note (take 10 two) [])
drain_prefix_example =
    drain_prefix sample sample-IsQt note (greeting ∷ greeting ∷ []) (take 10 two) (drop 10 two) []
      (omega arith, (omega arith, tt)) (append-take-drop 10 two)

drain-serialize_stalls_example :
    let b = serialize sample greeting ++ serialize sample greeting in
    drain (λ n. n) note b [] ≡ record { buffer = b; state = []; closed = false }
unfolding serialize sample
drain-serialize_stalls_example =
    drain-serialize_stalls sample sample-IsQt note greeting (serialize sample greeting) []
      (omega arith) (omega arith)

-- A stream that is cut within the header of its second packet.
drain-append_example :
    let half = serialize sample greeting ++ 0 ∷ 0 ∷ [] in
    let rest : Str = 0 ∷ 0 ∷ 14 ∷ 1 ∷ [] in
    drain sample.from_big_endian note (half ++ rest) []
    ≡ resume sample.from_big_endian note (drain sample.from_big_endian note half []) rest
drain-append_example =
    drain-append sample.from_big_endian note (serialize sample greeting ++ 0 ∷ 0 ∷ [])
      (0 ∷ 0 ∷ 14 ∷ 1 ∷ []) []

drain_settled_example :
    let r = drain sample.from_big_endian note (serialize sample greeting ++ 0 ∷ 0 ∷ []) [] in
    next_frame sample.from_big_endian r.buffer ≡ (if r.closed then mismatch else waiting)
drain_settled_example =
    drain_settled sample.from_big_endian note (serialize sample greeting ++ 0 ∷ 0 ∷ []) []
