-- ===== src/Protocol/Framing/Stream.antt =====
-- The packet loop without its fuel, and on streams that arrive in parts.
use nullchat.Base.{
  ℕ, zero, suc, ◌+◌, ◌≤◌, ◌≡◌, refl, ◌⊎◌, inl, inr, Str, true, false, [], ◌∷◌, ◌++◌, length,
  length-append, length-drop, drop, arith, take-append_left, drop-append_left, get_or-append_left,
  if◌then◌else◌,
}
use nullchat.Protocol.{read_header}
use nullchat.Protocol.Framing.{
  Frame, waiting, mismatch, packet, Drained, next_frame, read_loop, drain,
}

read_header-append : (b more : Str) → 6 ≤ length b → read_header (b ++ more) ≡ read_header b
unfolding read_header
read_header-append b more h = ground (
  arith,
  get_or-append_left 0 0 b more,
  get_or-append_left 1 0 b more,
  get_or-append_left 2 0 b more,
  get_or-append_left 3 0 b more,
  get_or-append_left 4 0 b more,
  get_or-append_left 5 0 b more,
)

module _ (decode : ℕ → ℕ) where
  -- A packet leaves a shorter buffer.
  packet_shorter :
      (b : Str) {type : ℕ} {body rest : Str}
      → next_frame decode b ≡ packet type body rest
      → length rest + 6 ≤ length b
  unfolding next_frame
  packet_shorter b h = let n = decode (read_header b).size in ground (arith, length-drop (6 + n) b)

  -- Bytes that arrive later change nothing in a packet or a foreign header that is there.
  pub packet-append :
      (b more : Str) {type : ℕ} {body rest : Str}
      → next_frame decode b ≡ packet type body rest
      → next_frame decode (b ++ more) ≡ packet type body (rest ++ more)
  unfolding next_frame
  packet-append b more h =
      let n = decode (read_header b).size in
      ground (
        arith,
        length-append b more,
        read_header-append b more,
        drop-append_left 6 b more,
        length-drop 6 b,
        take-append_left n (drop 6 b) more,
        drop-append_left (6 + n) b more,
      )

  pub mismatch-append :
      (b more : Str) → next_frame decode b ≡ mismatch → next_frame decode (b ++ more) ≡ mismatch
  unfolding next_frame
  mismatch-append b more h = ground (arith, length-append b more, read_header-append b more)

pub Frame-cases :
    (f : Frame)
    → (f ≡ waiting)
      ⊎ (f ≡ mismatch)
      ⊎ ((type : ℕ) × (body : Str) × (rest : Str) × (f ≡ packet type body rest))
Frame-cases waiting = inl refl
Frame-cases mismatch = inr (inl refl)
Frame-cases (packet type body rest) = inr (inr (type, body, rest, refl))

pub next_frame-nil : (decode : ℕ → ℕ) → next_frame decode [] ≡ waiting
unfolding next_frame
next_frame-nil decode = refl

module _ {ℓ} (decode : ℕ → ℕ) {S : Type ℓ} (handle : ℕ → Str → S → S) where
  -- The loop with any two amounts of fuel that reach does the same.
  read_loop_enough :
      (f g : ℕ) (b : Str) (s : S)
      → length b ≤ f
      → length b ≤ g
      → read_loop decode handle f b s ≡ read_loop decode handle g b s
  unfolding read_loop
  read_loop_enough zero zero b s hf hg = refl
  read_loop_enough zero (suc g) [] s hf hg = rw (next_frame-nil, read_loop)
  read_loop_enough zero (suc g) (x ∷ b) s hf hg = absurd (omega arith)
  read_loop_enough (suc f) zero [] s hf hg = rw (next_frame-nil, read_loop)
  read_loop_enough (suc f) zero (x ∷ b) s hf hg = absurd (omega arith)
  read_loop_enough (suc f) (suc g) b s hf hg = elim (Frame-cases (next_frame decode b)) [
    | inl e ↦ rw (e, read_loop)
    | inr (inl e) ↦ rw (e, read_loop)
    | inr (inr (type, body, rest, e)) ↦
        let shorter = packet_shorter decode b e in
        rw (e, read_loop)
          (read_loop_enough f g rest (handle type body s) (omega arith) (omega arith))
  ]

  -- The rounds of the loop, with no fuel in sight.
  pub drain_waiting :
      (b : Str) (s : S)
      → next_frame decode b ≡ waiting
      → drain decode handle b s ≡ record { buffer = b; state = s; closed = false }
  unfolding drain
  drain_waiting [] s e = refl
  drain_waiting (x ∷ b) s e = rw (e, read_loop)

  pub drain_mismatch :
      (b : Str) (s : S)
      → next_frame decode b ≡ mismatch
      → drain decode handle b s ≡ record { buffer = b; state = s; closed = true }
  unfolding drain
  drain_mismatch [] s e = cc (next_frame-nil decode)
  drain_mismatch (x ∷ b) s e = rw (e, read_loop)

  pub drain_packet :
      (b : Str) (s : S) {type : ℕ} {body rest : Str}
      → next_frame decode b ≡ packet type body rest
      → drain decode handle b s ≡ drain decode handle rest (handle type body s)
  unfolding drain
  drain_packet [] s e = cc (next_frame-nil decode)
  drain_packet (x ∷ b) s {type} {body} {rest} e =
      let shorter = packet_shorter decode (x ∷ b) e in
      rw (e, read_loop)
        (read_loop_enough (length b) (length rest) rest (handle type body s) (omega arith)
          (omega arith))

  -- To prove a fact about the loop, prove it where the loop stops and pass it back over a packet.
  pub drain_induction {κ} :
      (P : Str → S → Type κ)
      → ((b : Str) (s : S) → next_frame decode b ≡ waiting → P b s)
      → ((b : Str) (s : S) → next_frame decode b ≡ mismatch → P b s)
      → ((b : Str) (s : S) (type : ℕ) (body rest : Str)
          → next_frame decode b ≡ packet type body rest
          → P rest (handle type body s)
          → P b s)
      → (fuel : ℕ) (b : Str) (s : S) → length b ≤ fuel
      → P b s
  drain_induction P wait stop next zero [] s h = wait [] s (next_frame-nil decode)
  drain_induction P wait stop next zero (x ∷ b) s h = absurd (omega arith)
  drain_induction P wait stop next (suc fuel) b s h = elim (Frame-cases (next_frame decode b)) [
    | inl e ↦ wait b s e
    | inr (inl e) ↦ stop b s e
    | inr (inr (type, body, rest, e)) ↦
        let shorter = packet_shorter decode b e in
        next b s type body rest e
          (drain_induction P wait stop next fuel rest (handle type body s) (omega arith))
  ]

  -- The loop never stops for want of fuel: what it leaves is less than a packet, or begins with a
  -- foreign header if and only if the loop closed the connection.
  pub drain_settled :
      (b : Str) (s : S)
      → let r = drain decode handle b s in
        next_frame decode r.buffer ≡ (if r.closed then mismatch else waiting)
  drain_settled b s =
      drain_induction
        (λ b s.
          let r = drain decode handle b s in
          next_frame decode r.buffer ≡ (if r.closed then mismatch else waiting))
        (λ b s e. rw (drain_waiting b s e) e) (λ b s e. rw (drain_mismatch b s e) e)
        (λ b s type body rest e ih. rw (drain_packet b s e) ih) (length b) b s (omega arith)

  -- What a later read does to a loop's result: more bytes come to a buffer, and the loop runs on
  -- if the connection is open.
  abbrev pub resume : Drained S → Str → Drained S
  resume r more =
      if r.closed
      then record r { buffer = r.buffer ++ more }
      else drain decode handle (r.buffer ++ more) r.state

  -- A stream that arrives in two reads is handled as if it had arrived in one, wherever the cut
  -- falls: the same packets in the same order, the same bytes left over.
  pub drain-append :
      (a b : Str) (s : S) → drain decode handle (a ++ b) s ≡ resume (drain decode handle a s) b
  drain-append a b s =
      drain_induction (λ a s. drain decode handle (a ++ b) s ≡ resume (drain decode handle a s) b)
        (λ a s e. rw (drain_waiting a s e))
        (λ a s e.
          rw (drain_mismatch a s e, drain_mismatch (a ++ b) s (mismatch-append decode a b e)))
        (λ a s type body rest e ih.
          rw (drain_packet a s e, drain_packet (a ++ b) s (packet-append decode a b e)) ih)
        (length a) a s (omega arith)
