-- ===== src/Server/Vouched/Reach.antt =====
-- In every server that can be reached, all that has been written is borne out by the user table.
use nullchat.Base.{
  ℕ, ◌≡◌, refl, sym, ◌∙◌, subst, Str, text, is_empty, Bool, true, false, List, [], ◌∷◌, ◌++◌,
  length, arith, Bool-cases, inl, inr, append-nil, none, if◌then◌else◌,
}
use nullchat.Qt.{Qt, IsQt}
use nullchat.Qt.Json.{string_at}
use nullchat.Crypto.{OpenSsl, sha256}
use nullchat.Protocol.{
  MessageType, auth_login, auth_register, auth_response, user_online, text_message, group_message,
  create_group, join_group, p2p_offer, p2p_answer, p2p_ice_candidate, ping, pong, user_offline,
  of_byte, make_packet,
}
use nullchat.Protocol.Framing.{drain}
use nullchat.Protocol.Framing.Stream.{drain_induction, drain_waiting, drain_mismatch, drain_packet}
use nullchat.Database.{Database, UserRecord, register_user, login_user}
use nullchat.Database.Users.{has_account, users-login_user}
use nullchat.Server.State.{Server, initial, set_session}
use nullchat.Server.Groups.{get_user_groups, broadcast_to_group}
use nullchat.Server.Handlers.{
  presence, login_response, on_authenticated, accept_login, handle_auth_login, handle_auth_register,
  dispatch, handle_packet,
}
use nullchat.Server.Events.{
  on_new_connection, on_session_disconnected, on_ready_read, on_disconnected, Event, connects,
  receives, handles, disconnects, step,
}
use nullchat.Server.Frame.{send_packet-Same, broadcast_to_group-Same, users-get_user_groups_info}
use nullchat.Server.Frame.Handlers.{
  handle_text_message-Same, handle_group_message-Same, handle_create_group-Same,
  handle_join_group-Same, handle_p2p_offer-Same, handle_p2p_answer-Same,
  handle_p2p_ice_candidate-Same,
}
use nullchat.Server.Identity.{Genuine, Ready, handle_packet-Genuine}
use nullchat.Server.Reachable.{Admissible, Reach, here, next, initial-Genuine, step-Genuine}
use nullchat.Server.Vouched.{vouches, Told, Told-append, Told-send_packet, Told-broadcast_to_group}
use nullchat.Server.Vouched.Handlers.{
  presence_read, Told-handle_text_message, Told-handle_group_message, Told-handle_create_group,
  Told-handle_join_group, Told-handle_p2p_offer, Told-handle_p2p_answer,
  Told-handle_p2p_ice_candidate, Told-handle_auth_login, Told-handle_auth_register,
}

-- The server's users are those of before, or more behind them.
abbrev More : List UserRecord → List UserRecord → Type 0
More us us' = (more : List UserRecord) × (us' ≡ us ++ more)

module _ (q : Qt) (ssl : OpenSsl) where
  users-accept_login :
      (h : ℕ) (id username : Str) (w : Server)
      → (accept_login q h id username w).db.users ≡ w.db.users
  unfolding accept_login
  users-accept_login h id username w =
      let known =
        set_session h
          (record (w.objects h) { authenticated = true; user_id = id; username = username }) w in
      let (groups, db) = get_user_groups known.db id in
      let registered = on_authenticated id h (record known { db = db }) in
      let pkt = make_packet user_online (q.print (presence q id username true)) in
      let told = broadcast_to_group-Same q [] id pkt registered in
      let answered =
        send_packet-Same q h auth_response (q.print (login_response q id username groups))
          (broadcast_to_group q [] id pkt registered) in
      answered.users ∙ told.users ∙ users-get_user_groups_info w.db id

  users-handle_auth_login :
      (h : ℕ) (json : Str) (w : Server) → (handle_auth_login q ssl h json w).db.users ≡ w.db.users
  unfolding handle_auth_login
  users-handle_auth_login h json w =
      let obj = q.parse json in
      let username = string_at q obj "username" in
      let r = login_user ssl w.db username (string_at q obj "password") in
      let same = users-login_user ssl w.db username (string_at q obj "password") in
      elim (Bool-cases r.0) [
        | inl done ↦
            rw (done, handle_auth_login)
              (users-accept_login h r.1 username (record w { db = r.2 }) ∙ same)
        | inr failed ↦
            rw (failed, handle_auth_login)
              ((send_packet-Same q h auth_response _ (record w { db = r.2 })).users ∙ same)
      ]

  More-register_user :
      (db : Database) (username password : Str)
      → More db.users (register_user q ssl db username password).2.users
  unfolding register_user
  More-register_user db username password =
      let row : UserRecord = record {
        id = q.uuid db.uuids;
        username = username;
        password_hash = sha256 ssl password;
        public_key = none;
      } in
      let grown = (register_user q ssl db username password).0 in
      (if grown then row ∷ [] else [], ground (arith, append-nil db.users))

  More-handle_auth_register :
      (h : ℕ) (json : Str) (w : Server)
      → More w.db.users (handle_auth_register q ssl h json w).db.users
  unfolding handle_auth_register
  More-handle_auth_register h json w =
      let obj = q.parse json in
      let username = string_at q obj "username" in
      let password = string_at q obj "password" in
      let (more, grown) = More-register_user w.db username password in
      let db = (register_user q ssl w.db username password).2 in
      (more, (send_packet-Same q h auth_response _ (record w { db = db })).users ∙ grown)

-- All that the server has written is borne out by its user table.
abbrev pub Vouching : Qt → Server → Type 0
Vouching q w = Told q w.db.users w.sent

module _ (q : Qt) where
  Told-same :
      {us us' : List UserRecord} (sent : List (ℕ × Str))
      → us' ≡ us
      → Told q us sent
      → Told q us' sent
  Told-same sent e told = subst (λ us. Told q us sent) (sym e) told

  Told-grown :
      (us : List UserRecord) {us' : List UserRecord} (sent : List (ℕ × Str))
      → More us us'
      → Told q us sent
      → Told q us' sent
  Told-grown us sent (more, e) told =
      subst (λ us. Told q us sent) (sym e) (Told-append q us more sent told)

module _ (q : Qt) (lawful : IsQt q) (ssl : OpenSsl) where
  dispatch-Vouching :
      (t : MessageType) (h : ℕ) (body : Str) (w : Server)
      → Ready h w
      → Vouching q w
      → Vouching q (dispatch q ssl t h body w)
  unfolding dispatch vouches
  dispatch-Vouching auth_login h body w g told =
      Told-same q _ (users-handle_auth_login q ssl h body w)
        (Told-handle_auth_login q lawful w.db.users ssl h body w refl told)
  dispatch-Vouching auth_register h body w g told =
      Told-grown q w.db.users _ (More-handle_auth_register q ssl h body w)
        (Told-handle_auth_register q lawful w.db.users ssl h body w told)
  dispatch-Vouching text_message h body w g told =
      Told-same q _ (handle_text_message-Same q h body w).users
        (Told-handle_text_message q lawful w.db.users h body w (g.0.known h) told)
  dispatch-Vouching group_message h body w g told =
      Told-same q _ (handle_group_message-Same q h body w).users
        (Told-handle_group_message q lawful w.db.users h body w (g.0.known h) told)
  dispatch-Vouching create_group h body w g told =
      Told-same q _ (handle_create_group-Same q h body w).users
        (Told-handle_create_group q lawful w.db.users h body w (g.0.known h) told)
  dispatch-Vouching join_group h body w g told =
      Told-same q _ (handle_join_group-Same q h body w).users
        (Told-handle_join_group q lawful w.db.users h body w (g.0.known h) told)
  dispatch-Vouching p2p_offer h body w g told =
      Told-same q _ (handle_p2p_offer-Same q h body w).users
        (Told-handle_p2p_offer q lawful w.db.users h body w (g.0.known h) told)
  dispatch-Vouching p2p_answer h body w g told =
      Told-same q _ (handle_p2p_answer-Same q h body w).users
        (Told-handle_p2p_answer q lawful w.db.users h body w (g.0.known h) told)
  dispatch-Vouching p2p_ice_candidate h body w g told =
      Told-same q _ (handle_p2p_ice_candidate-Same q h body w).users
        (Told-handle_p2p_ice_candidate q lawful w.db.users h body w (g.0.known h) told)
  dispatch-Vouching ping h body w g told =
      Told-same q _ (send_packet-Same q h pong _ w).users
        (Told-send_packet q w.db.users h pong (text "{}") w tt refl told)
  dispatch-Vouching _ h body w g told = told

  handle_packet-Vouching :
      (h type : ℕ) (body : Str) (w : Server)
      → Ready h w
      → Vouching q w
      → Vouching q (handle_packet q ssl h type body w)
  unfolding handle_packet
  handle_packet-Vouching h type body w = dispatch-Vouching (of_byte type) h body w

  drain-Vouching :
      (h : ℕ) (b : Str) (w : Server)
      → Ready h w
      → Vouching q w
      → Vouching q (drain (λ n. n) (handle_packet q ssl h) b w).state
  drain-Vouching h b w =
      drain_induction (λ n. n) (handle_packet q ssl h)
        (λ b w.
          Ready h w → Vouching q w → Vouching q (drain (λ n. n) (handle_packet q ssl h) b w).state)
        (λ b w e g told. rw (drain_waiting (λ n. n) (handle_packet q ssl h) b w e) told)
        (λ b w e g told. rw (drain_mismatch (λ n. n) (handle_packet q ssl h) b w e) told)
        (λ b w type body rest e ih g told.
          rw (drain_packet (λ n. n) (handle_packet q ssl h) b w e) (
            ih (handle_packet-Genuine q ssl h type body w g)
              (handle_packet-Vouching h type body w g told)))
        (length b) b w (omega arith)

  on_ready_read-Vouching :
      (h : ℕ) (chunk : Str) (w : Server)
      → Ready h w
      → Vouching q w
      → Vouching q (on_ready_read q ssl h chunk w)
  unfolding on_ready_read set_session
  on_ready_read-Vouching h chunk w g told =
      let buffer = (w.objects h).read_buffer ++ chunk in
      let r = drain (λ n. n) (handle_packet q ssl h) buffer w in
      let handled = drain-Vouching h buffer w g told in
      elim (Bool-cases r.closed) [
        | inl stop ↦ rw (stop, on_ready_read) handled
        | inr open' ↦ rw (open', on_ready_read) handled
      ]

  on_new_connection-Vouching :
      (pending : List Bool) (w : Server) → Vouching q w → Vouching q (on_new_connection pending w)
  unfolding on_new_connection set_session
  on_new_connection-Vouching [] w told = told
  on_new_connection-Vouching (true ∷ pending) w told = on_new_connection-Vouching pending _ told
  on_new_connection-Vouching (false ∷ pending) w told = on_new_connection-Vouching pending w told

  on_disconnected-Vouching :
      (h : ℕ) (w : Server) → Genuine w → Vouching q w → Vouching q (on_disconnected q h w)
  unfolding on_disconnected on_session_disconnected set_session vouches make_packet
  on_disconnected-Vouching h w g told =
      let s = w.objects h in
      let gone = presence_read q lawful w.db.users s.user_id s.username false in
      let pkt = make_packet user_offline (q.print (presence q s.user_id s.username false)) in
      elim (Bool-cases (is_empty s.user_id)) [
        | inl unnamed ↦ rw (unnamed, on_disconnected) told
        | inr named ↦
            let account : has_account w.db.users s.user_id s.username ≡ true =
              g.known h (g.owned h named) in
            rw (named, on_disconnected)
              (Told-same q _ (broadcast_to_group-Same q [] s.user_id pkt w).users (
                Told-broadcast_to_group q w.db.users [] s.user_id pkt w tt
                  (rw (gone.0, gone.1, gone.2, account) refl) told))
      ]

  step-Vouching :
      (w : Server) (e : Event)
      → Admissible w e
      → Genuine w
      → Vouching q w
      → Vouching q (step q ssl w e)
  unfolding step
  step-Vouching w (connects pending) a g told = on_new_connection-Vouching pending w told
  step-Vouching w (receives h chunk) a g told = on_ready_read-Vouching h chunk w (g, a) told
  step-Vouching w (handles h type body) a g told = handle_packet-Vouching h type body w (g, a) told
  step-Vouching w (disconnects h) a g told = on_disconnected-Vouching h w g told

  pub Reach-Vouching : (db : Database) {w : Server} → Reach q ssl (initial db) w → Vouching q w
  Reach-Vouching db r = (both r).1
    where
      both : {w : Server} → Reach q ssl (initial db) w → Genuine w × Vouching q w
      both here = (initial-Genuine db, tt)
      both (next {w = v} r e a) =
          let (g, told) = both r in (step-Genuine q ssl v e a g, step-Vouching v e a g told)
