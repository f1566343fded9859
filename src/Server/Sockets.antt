-- ===== src/Server/Sockets.antt =====
-- Connections that come and go: who is found afterwards, and when a null socket is written to.
use nullchat.Base.{
  ℕ, suc, ◌+◌, ◌≡◌, ◌≢◌, ap, ◌∙◌, Str, ◌==◌, is_empty, Bool, true, false, none, some, List, [], ◌∷◌,
  eqb, if◌then◌else◌, arith, Bool-cases, inl, inr,
}
use nullchat.Base.Map.{find-erase}
use nullchat.Qt.{Qt}
use nullchat.Protocol.{user_offline, make_packet}
use nullchat.Server.State.{Server, new_session, set_session, find_session, send_packet}
use nullchat.Server.Groups.{broadcast_to_group}
use nullchat.Qt.Json.{string_at}
use nullchat.Server.Handlers.{presence, handle_text_message}
use nullchat.Server.Events.{on_new_connection, on_disconnected}
use nullchat.Server.Frame.{Same, broadcast_to_group-Same}

-- The connections of a list that have a `QSslSocket`.
abbrev pub count_ssl : List Bool → ℕ
count_ssl [] = 0
count_ssl (true ∷ pending) = suc (count_ssl pending)
count_ssl (false ∷ pending) = count_ssl pending

-- Sessions come of `QSslSocket`s alone, one for each: with the plain sockets that a `QTcpServer`
-- makes, the server never creates a session. The sessions before, the registry and the database
-- stay.
pub created-on_new_connection :
    (pending : List Bool) (w : Server)
    → let w' = on_new_connection pending w in
      (w'.created ≡ w.created + count_ssl pending)
      × (w'.registry ≡ w.registry)
      × (w'.db ≡ w.db)
      × (w'.sent ≡ w.sent)
unfolding on_new_connection
created-on_new_connection [] w = ground arith
created-on_new_connection (true ∷ pending) w = ground (
  arith,
  created-on_new_connection pending
      (record (set_session w.created new_session w) { created = suc w.created }),
)
created-on_new_connection (false ∷ pending) w = created-on_new_connection pending w

module _ (q : Qt) where
  -- The notice to the empty group changes no session and no entry.
  farewell-Same :
      (h : ℕ) (w : Server)
      → let s = w.objects h in
        let pkt = make_packet user_offline (q.print (presence q s.user_id s.username false)) in
        Same w (if is_empty s.user_id then w else broadcast_to_group q [] s.user_id pkt w)
  farewell-Same h w =
      let s = w.objects h in
      let pkt = make_packet user_offline (q.print (presence q s.user_id s.username false)) in
      elim (Bool-cases (is_empty s.user_id)) [
        | inl unnamed ↦ rw unnamed (ground arith)
        | inr named ↦ rw named (broadcast_to_group-Same q [] s.user_id pkt w)
      ]

  -- A disconnect takes the session's own user id out of the registry, takes its socket, and leaves
  -- every other session and every other entry as it was.
  pub on_disconnected_lem :
      (h : ℕ) (w : Server)
      → let w' = on_disconnected q h w in
        ((id : Str)
          → find_session w' id ≡ (if id == (w.objects h).user_id then none else find_session w id))
        × ((i : ℕ)
            → w'.objects i
              ≡ (if eqb i h then record (w.objects h) { socket = false } else w.objects i))
  unfolding on_disconnected find_session
  on_disconnected_lem h w =
      let told = farewell-Same h w in
      (
        λ id. rw told.registry (ground (arith, find-erase id (w.objects h).user_id w.registry)),
        λ i. rw told.objects,
      )

  -- Two connections of one user, of which the registry has the second: when the first ends, the
  -- second is as it was, but the user is no longer found, and a direct message to the user changes
  -- nothing.
  pub on_disconnected_shadowed :
      (h other sender : ℕ) (json : Str) (w : Server)
      → let id = (w.objects h).user_id in
        find_session w id ≡ some other
        → h ≢ other
        → string_at q (q.parse json) "recipient_id" ≡ id
        → let w' = on_disconnected q h w in
          (w'.objects other ≡ w.objects other)
          × (find_session w' id ≡ none)
          × (handle_text_message q sender json w' ≡ w')
  unfolding handle_text_message
  on_disconnected_shadowed h other sender json w found ne to =
      let w' = on_disconnected q h w in
      let gone : find_session w' (w.objects h).user_id ≡ none =
        (on_disconnected_lem h w).0 (w.objects h).user_id ∙ ground arith in
      ((on_disconnected_lem h w).1 other ∙ ground arith, gone, ground arith)

  -- A session that is found under an id that is not its own, as after a second login as another
  -- user: when it has ended, a direct message to that id, from another session that has logged in,
  -- writes to a null socket.
  pub on_disconnected_stale :
      (h sender : ℕ) (id json : Str) (w : Server)
      → find_session w id ≡ some h
      → id ≢ (w.objects h).user_id
      → h ≢ sender
      → (w.objects sender).authenticated ≡ true
      → string_at q (q.parse json) "recipient_id" ≡ id
      → (handle_text_message q sender json (on_disconnected q h w)).crashed ≡ true
  unfolding handle_text_message send_packet
  on_disconnected_stale h sender id json w found ne other on to =
      let w' = on_disconnected q h w in
      let still : find_session w' id ≡ some h = (on_disconnected_lem h w).0 id ∙ ground arith in
      let dead : (w'.objects h).socket ≡ false =
        ap (λ s. s.socket) ((on_disconnected_lem h w).1 h) ∙ ground arith in
      let alive : (w'.objects sender).authenticated ≡ true =
        ap (λ s. s.authenticated) ((on_disconnected_lem h w).1 sender) ∙ ground arith in
      ground arith
