-- ===== src/Server/Isolation.antt =====
-- What a session may do before it has logged in.
use nullchat.Base.{
  ℕ, ◌≡◌, refl, ap, ◌⊎◌, inl, inr, Str, ◌++◌, ◌∷◌, false, eqb, if◌then◌else◌, Bool-cases, arith,
}
use nullchat.Qt.{Qt}
use nullchat.Crypto.{OpenSsl}
use nullchat.Protocol.{MessageType, auth_login, auth_register, ping, of_byte}
use nullchat.Protocol.Framing.{drain, next_frame, waiting, mismatch, packet}
use nullchat.Protocol.Framing.Stream.{drain_waiting, drain_mismatch, drain_packet}
use nullchat.Server.State.{Server, set_session}
use nullchat.Server.Events.{on_ready_read}
use nullchat.Server.Handlers.{
  handle_text_message, handle_group_message, handle_create_group, handle_join_group,
  handle_p2p_offer, handle_p2p_answer, handle_p2p_ice_candidate, dispatch, handle_packet,
}

-- The types that a session without an account may send to some effect.
abbrev pub IsOpenType : MessageType → Type 0
IsOpenType t = (t ≡ auth_login) ⊎ (t ≡ auth_register) ⊎ (t ≡ ping)

-- Bytes in which the server's loop meets no packet of an open type: it waits for more, it meets a
-- foreign header, or it takes a packet of another type and the same holds behind it.
pub data Silent : Str → Type 0 where
  waits : {b : Str} → next_frame (λ n. n) b ≡ waiting → Silent b
  breaks : {b : Str} → next_frame (λ n. n) b ≡ mismatch → Silent b
  passes :
      {b : Str} (type : ℕ) (body rest : Str)
      → next_frame (λ n. n) b ≡ packet type body rest
      → ¬ IsOpenType (of_byte type)
      → Silent rest
      → Silent b

module _ (q : Qt) (ssl : OpenSsl) where
  dispatch_closed :
      (t : MessageType) (h : ℕ) (body : Str) (w : Server)
      → (w.objects h).authenticated ≡ false
      → ¬ IsOpenType t
      → dispatch q ssl t h body w ≡ w
  unfolding dispatch handle_text_message handle_group_message handle_create_group handle_join_group
      handle_p2p_offer handle_p2p_answer handle_p2p_ice_candidate
  dispatch_closed auth_login h body w out closed = absurd (closed (inl refl))
  dispatch_closed auth_register h body w out closed = absurd (closed (inr (inl refl)))
  dispatch_closed ping h body w out closed = absurd (closed (inr (inr refl)))
  dispatch_closed _ h body w out closed = ground arith

  -- Before it has logged in, a session changes nothing and sends nothing by any packet, whatever
  -- its bytes, that is no login, no registration and no ping.
  pub handle_packet_unauthenticated :
      (h type : ℕ) (body : Str) (w : Server)
      → (w.objects h).authenticated ≡ false
      → ¬ IsOpenType (of_byte type)
      → handle_packet q ssl h type body w ≡ w
  unfolding handle_packet
  handle_packet_unauthenticated h type body w out closed =
      dispatch_closed (of_byte type) h body w out closed

  drain_unauthenticated :
      (h : ℕ) (b : Str) (w : Server)
      → (w.objects h).authenticated ≡ false
      → Silent b
      → (drain (λ n. n) (handle_packet q ssl h) b w).state ≡ w
  drain_unauthenticated h b w out (waits e) =
      rw (drain_waiting (λ n. n) (handle_packet q ssl h) b w e) refl
  drain_unauthenticated h b w out (breaks e) =
      rw (drain_mismatch (λ n. n) (handle_packet q ssl h) b w e) refl
  drain_unauthenticated h b w out (passes type body rest e closed silent) =
      rw
        (
          drain_packet (λ n. n) (handle_packet q ssl h) b w e,
          handle_packet_unauthenticated h type body w out closed,
        )
        (drain_unauthenticated h rest w out silent)

  -- The session keeps what is left of the bytes, and its socket is told to close after a foreign header.
  abbrev kept : ℕ → Str → Server → Server
  kept h b w =
      let r = drain (λ n. n) (handle_packet q ssl h) b w in
      record (set_session h (record (w.objects h) { read_buffer = r.buffer }) w) {
        closing = if r.closed then h ∷ w.closing else w.closing;
      }

  on_ready_read-kept :
      (h : ℕ) (chunk : Str) (w : Server)
      → (w.objects h).authenticated ≡ false
      → Silent ((w.objects h).read_buffer ++ chunk)
      → on_ready_read q ssl h chunk w ≡ kept h ((w.objects h).read_buffer ++ chunk) w
  unfolding on_ready_read set_session
  on_ready_read-kept h chunk w out silent =
      let b = (w.objects h).read_buffer ++ chunk in
      let r = drain (λ n. n) (handle_packet q ssl h) b w in
      let same : r.state ≡ w = drain_unauthenticated h b w out silent in
      elim (Bool-cases r.closed) [
        | inl stop ↦ rw (stop, same) refl
        | inr open' ↦ rw (open', same) refl
      ]

  -- Whatever arrives on the socket of a session that has not logged in, if the loop meets no login, no
  -- registration and no ping in it and in what has been kept of earlier reads: nothing is written to any
  -- socket, the database, the registry and the other sessions stay as they are, and of the session itself
  -- the buffer alone changes.
  pub on_ready_read_unauthenticated :
      (h : ℕ) (chunk : Str) (w : Server)
      → (w.objects h).authenticated ≡ false
      → Silent ((w.objects h).read_buffer ++ chunk)
      → let w' = on_ready_read q ssl h chunk w in
        (w'.sent ≡ w.sent)
        × (w'.db ≡ w.db)
        × (w'.registry ≡ w.registry)
        × (w'.crashed ≡ w.crashed)
        × ((i : ℕ)
            → w'.objects i ≡ (
                if eqb i h
                then record (w.objects h) { read_buffer = (w'.objects h).read_buffer }
                else w.objects i))
  unfolding set_session
  on_ready_read_unauthenticated h chunk w out silent =
      let form = on_ready_read-kept h chunk w out silent in
      (
        ap (λ v. v.sent) form,
        ap (λ v. v.db) form,
        ap (λ v. v.registry) form,
        ap (λ v. v.crashed) form,
        λ i. rw form (ground arith),
      )
