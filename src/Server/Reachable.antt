-- ===== src/Server/Reachable.antt =====
-- The servers that a sequence of socket events can lead to.
use nullchat.Base.{
  ℕ, ◌<◌, ◌≡◌, refl, Str, is_empty, Bool, true, false, List, [], ◌∷◌, ◌++◌, arith, Bool-cases, inl,
  inr,
}
use nullchat.Base.Map.{find, find-erase}
use nullchat.Qt.{Qt}
use nullchat.Crypto.{OpenSsl}
use nullchat.Protocol.{user_offline, make_packet}
use nullchat.Protocol.Framing.{drain}
use nullchat.Database.{Database}
use nullchat.Server.State.{Server, Session, initial, set_session}
use nullchat.Server.Handlers.{presence, handle_packet}
use nullchat.Server.Events.{
  on_new_connection, on_session_disconnected, on_ready_read, on_disconnected, Event, connects,
  receives, handles, disconnects, step,
}
use nullchat.Server.Frame.{broadcast_to_group-Same}
use nullchat.Server.Identity.{Genuine, Ready, Genuine-Same, handle_packet-Genuine, drain-Genuine}

-- Sockets exist for sessions that have been created.
abbrev pub Admissible : Server → Event → Type 0
Admissible w (connects pending) = Unit {0}
Admissible w (receives h chunk) = h < w.created
Admissible w (handles h type body) = h < w.created
Admissible w (disconnects h) = h < w.created

pub data Reach (q : Qt) (ssl : OpenSsl) (start : Server) : Server → Type 0 where
  here : Reach q ssl start start
  next :
      {w : Server}
      → Reach q ssl start w
      → (e : Event) → Admissible w e
      → Reach q ssl start (step q ssl w e)

pub initial-Genuine : (db : Database) → Genuine (initial db)
unfolding find
initial-Genuine db = record {
  known = λ i h. cc;
  listed = λ id h e. cc;
  bounded = λ id h e. cc;
  owned = λ i h. cc;
}

-- A session that changes in nothing but its buffer and its socket keeps its account.
keep_identity :
    (h : ℕ) (s : Session) (w : Server)
    → s.authenticated ≡ (w.objects h).authenticated
    → s.user_id ≡ (w.objects h).user_id
    → s.username ≡ (w.objects h).username
    → Genuine w
    → Genuine (set_session h s w)
unfolding set_session
keep_identity h s w a i n g = record {
  known = λ j e. ground (arith, g.known j);
  listed = λ id j e. ground (arith, g.listed id j);
  bounded = g.bounded;
  owned = λ j e. ground (arith, g.owned j);
}

on_new_connection-Genuine :
    (pending : List Bool) (w : Server) → Genuine w → Genuine (on_new_connection pending w)
unfolding on_new_connection
on_new_connection-Genuine [] w g = g
on_new_connection-Genuine (true ∷ pending) w g = on_new_connection-Genuine pending _ (record {
  known = λ i e. ground (arith, g.known i);
  listed = λ id i e. ground (arith, g.listed id i, g.bounded id i);
  bounded = λ id i e. ground (arith, g.bounded id i);
  owned = λ i e. ground (arith, g.owned i);
})
on_new_connection-Genuine (false ∷ pending) w g = on_new_connection-Genuine pending w g

erase-Genuine : (id : Str) (w : Server) → Genuine w → Genuine (on_session_disconnected id w)
unfolding on_session_disconnected
erase-Genuine id w g = record {
  known = g.known;
  listed = λ j h e. ground (arith, find-erase j id w.registry, g.listed j h);
  bounded = λ j h e. ground (arith, find-erase j id w.registry, g.bounded j h);
  owned = g.owned;
}

module _ (q : Qt) where
  on_disconnected-Genuine : (h : ℕ) (w : Server) → Genuine w → Genuine (on_disconnected q h w)
  unfolding on_disconnected
  on_disconnected-Genuine h w g =
      let s = w.objects h in
      let pkt = make_packet user_offline (q.print (presence q s.user_id s.username false)) in
      let gone = λ (told : Server) (t : Genuine told).
        let erased = on_session_disconnected s.user_id told in
        keep_identity h (record (erased.objects h) { socket = false }) erased refl refl refl
          (erase-Genuine s.user_id told t) in
      elim (Bool-cases (is_empty s.user_id)) [
        | inl unnamed ↦ rw unnamed (gone w g)
        | inr named ↦
            rw named (gone _ (Genuine-Same (broadcast_to_group-Same q [] s.user_id pkt w) g))
      ]

module _ (q : Qt) (ssl : OpenSsl) where
  on_ready_read-Genuine :
      (h : ℕ) (chunk : Str) (w : Server) → Ready h w → Genuine (on_ready_read q ssl h chunk w)
  unfolding on_ready_read
  on_ready_read-Genuine h chunk w g =
      let r = drain (λ n. n) (handle_packet q ssl h) ((w.objects h).read_buffer ++ chunk) w in
      let handled = drain-Genuine q ssl h ((w.objects h).read_buffer ++ chunk) w g in
      let s = record (r.state.objects h) { read_buffer = r.buffer } in
      let kept = keep_identity h s r.state refl refl refl handled.0 in
      elim (Bool-cases r.closed) [
        | inl stop ↦ rw stop (Genuine-Same (ground arith) kept)
        | inr open' ↦ rw open' kept
      ]

  pub step-Genuine :
      (w : Server) (e : Event) → Admissible w e → Genuine w → Genuine (step q ssl w e)
  unfolding step
  step-Genuine w (connects pending) a g = on_new_connection-Genuine pending w g
  step-Genuine w (receives h chunk) a g = on_ready_read-Genuine h chunk w (g, a)
  step-Genuine w (handles h type body) a g = (handle_packet-Genuine q ssl h type body w (g, a)).0
  step-Genuine w (disconnects h) a g = on_disconnected-Genuine q h w g

  -- After every sequence of socket events, on a server that starts without sessions and on sessions
  -- that have been created, an authenticated session carries the id and the name of one account of
  -- the user table, a session that carries an id is authenticated, and each entry of the registry leads to a session that was created and has been
  -- authenticated.
  pub Reach-Genuine : (db : Database) {w : Server} → Reach q ssl (initial db) w → Genuine w
  Reach-Genuine db here = initial-Genuine db
  Reach-Genuine db (next {w = v} r e a) = step-Genuine v e a (Reach-Genuine db r)
