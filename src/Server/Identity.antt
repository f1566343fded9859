-- ===== src/Server/Identity.antt =====
-- Sessions and accounts, through every handler.
use nullchat.Base.{
  ℕ, ◌<◌, ◌≡◌, refl, ap, Str, is_empty, Bool, true, false, some, [], arith, Bool-cases, inl, inr,
  length,
}
use nullchat.Base.Map.{find, find-insert}
use nullchat.Qt.{Qt}
use nullchat.Crypto.{OpenSsl}
use nullchat.Protocol.{
  MessageType, auth_login, auth_register, auth_response, text_message, group_message, create_group,
  join_group, p2p_offer, p2p_answer, p2p_ice_candidate, ping, pong, user_online, of_byte,
  make_packet,
}
use nullchat.Protocol.Framing.{drain}
use nullchat.Protocol.Framing.Stream.{drain_induction, drain_waiting, drain_mismatch, drain_packet}
use nullchat.Database.{Database, register_user, login_user}
use nullchat.Database.Users.{
  has_account, users-login_user, has_account-login_user, has_account-register_user,
}
use nullchat.Server.State.{Server, Session, set_session}
use nullchat.Server.Groups.{get_user_groups}
use nullchat.Qt.Json.{string_at}
use nullchat.Server.Handlers.{
  presence, accept_login, on_authenticated, handle_auth_login, handle_auth_register, dispatch,
  handle_packet,
}
use nullchat.Server.Frame.{
  Same, send_packet-Same, broadcast_to_group-Same, users-get_user_groups_info,
}
use nullchat.Server.Frame.Handlers.{
  handle_text_message-Same, handle_group_message-Same, handle_create_group-Same,
  handle_join_group-Same, handle_p2p_offer-Same, handle_p2p_answer-Same,
  handle_p2p_ice_candidate-Same,
}

abbrev pub account_of : Server → ℕ → Bool
account_of w i = has_account w.db.users (w.objects i).user_id (w.objects i).username

-- An authenticated session has an account, the registry leads to authenticated sessions that have
-- been created, and a session with a user id is authenticated.
pub record Genuine (w : Server) : Type 0 where
  pub known : (i : ℕ) → (w.objects i).authenticated ≡ true → account_of w i ≡ true
  pub listed : (id : Str) (h : ℕ) → find id w.registry ≡ some h → (w.objects h).authenticated ≡ true
  pub bounded : (id : Str) (h : ℕ) → find id w.registry ≡ some h → h < w.created
  pub owned : (i : ℕ) → is_empty (w.objects i).user_id ≡ false → (w.objects i).authenticated ≡ true

-- And the session `h` has been created.
abbrev pub Ready : ℕ → Server → Type 0
Ready h w = Genuine w × (h < w.created)

pub Genuine-Same : {w w' : Server} → Same w w' → Genuine w → Genuine w'
Genuine-Same s g = record {
  known = λ i h. ground (arith, g.known i, ap (λ objects. objects i) s.objects);
  listed = λ id h e. ground (arith, g.listed id h, ap (λ objects. objects h) s.objects);
  bounded = λ id h e. ground (arith, g.bounded id h);
  owned = λ i e. ground (arith, g.owned i, ap (λ objects. objects i) s.objects);
}

Ready-Same : (h : ℕ) {w w' : Server} → Same w w' → Ready h w → Ready h w'
Ready-Same h s g = (Genuine-Same s g.0, ground arith)

-- The user table has grown, and else all is the same.
record Grown (w w' : Server) : Type 0 where
  objects : w'.objects ≡ w.objects
  registry : w'.registry ≡ w.registry
  created : w'.created ≡ w.created
  users :
      (id name : Str)
      → has_account w.db.users id name ≡ true
      → has_account w'.db.users id name ≡ true

Genuine-Grown : (w w' : Server) → Grown w w' → Genuine w → Genuine w'
Genuine-Grown w w' s g = record {
  known = λ i h.
      let same = ap (λ objects. objects i) s.objects in
      ground (arith, g.known i, same, s.users (w.objects i).user_id (w.objects i).username);
  listed = λ id h e. ground (arith, g.listed id h, ap (λ objects. objects h) s.objects);
  bounded = λ id h e. ground (arith, g.bounded id h);
  owned = λ i e. ground (arith, g.owned i, ap (λ objects. objects i) s.objects);
}

module _ (q : Qt) where
  pub set_session-Genuine :
      (h : ℕ) (s : Session) (w : Server) (db : Database)
      → has_account w.db.users s.user_id s.username ≡ true
      → db.users ≡ w.db.users
      → s.authenticated ≡ true
      → Genuine w
      → Genuine (record (set_session h s w) { db = db })
  unfolding set_session
  set_session-Genuine h s w db account same on g = record {
    known = λ i e. ground (arith, g.known i);
    listed = λ id i e. ground (arith, g.listed id i);
    bounded = g.bounded;
    owned = λ i e. ground (arith, g.owned i);
  }

  on_authenticated-Genuine :
      (id : Str) (h : ℕ) (w : Server)
      → (w.objects h).authenticated ≡ true
      → h < w.created
      → Genuine w
      → Genuine (on_authenticated id h w)
  unfolding on_authenticated
  on_authenticated-Genuine id h w on made g = record {
    known = g.known;
    listed = λ id' i e. ground (arith, find-insert id' id h w.registry, g.listed id' i);
    bounded = λ id' i e. ground (arith, find-insert id' id h w.registry, g.bounded id' i);
    owned = g.owned;
  }

  -- The new identity has an account; nobody else's changes.
  accept_login-Genuine :
      (h : ℕ) (id username : Str) (w : Server)
      → has_account w.db.users id username ≡ true
      → Ready h w
      → Ready h (accept_login q h id username w)
  unfolding accept_login
  accept_login-Genuine h id username w account g =
      let s = record (w.objects h) { authenticated = true; user_id = id; username = username } in
      let known = set_session h s w in
      let (groups, db) = get_user_groups known.db id in
      let before = record known { db = db } in
      let pkt = make_packet user_online (q.print (presence q id username true)) in
      let told = broadcast_to_group-Same q [] id pkt (on_authenticated id h before) in
      let same = users-get_user_groups_info w.db id in
      let named : Genuine before = set_session-Genuine h s w db account same refl g.0 in
      let listed = on_authenticated-Genuine id h before (ground arith) g.1 named in
      Ready-Same h (send_packet-Same q h auth_response _ _) (Ready-Same h told (listed, g.1))

pub Genuine-db :
    (w : Server) (db : Database)
    → db.users ≡ w.db.users
    → Genuine w
    → Genuine (record w { db = db })
Genuine-db w db same g = record {
  known = λ i e. ground (arith, g.known i);
  listed = g.listed;
  bounded = g.bounded;
  owned = g.owned;
}

module _ (q : Qt) (ssl : OpenSsl) where
  handle_auth_login-Genuine :
      (h : ℕ) (json : Str) (w : Server) → Ready h w → Ready h (handle_auth_login q ssl h json w)
  unfolding handle_auth_login
  handle_auth_login-Genuine h json w g =
      let obj = q.parse json in
      let username = string_at q obj "username" in
      let r = login_user ssl w.db username (string_at q obj "password") in
      let same = users-login_user ssl w.db username (string_at q obj "password") in
      let kept : Ready h (record w { db = r.2 }) = (Genuine-db w r.2 same g.0, g.1) in
      elim (Bool-cases r.0) [
        | inl done ↦
            let found =
              has_account-login_user ssl w.db r.2 username (string_at q obj "password") r.1
                (ground arith) in
            rw done
              (accept_login-Genuine q h r.1 username (record w { db = r.2 }) (ground arith) kept)
        | inr failed ↦ rw failed (Ready-Same h (send_packet-Same q h auth_response _ _) kept)
      ]

  handle_auth_register-Genuine :
      (h : ℕ) (json : Str) (w : Server) → Ready h w → Ready h (handle_auth_register q ssl h json w)
  unfolding handle_auth_register
  handle_auth_register-Genuine h json w g =
      let obj = q.parse json in
      let r = register_user q ssl w.db (string_at q obj "username") (string_at q obj "password") in
      let grown : Grown w (record w { db = r.2 }) = record {
        objects = refl;
        registry = refl;
        created = refl;
        users =
            has_account-register_user q ssl w.db (string_at q obj "username")
              (string_at q obj "password");
      } in
      Ready-Same h (send_packet-Same q h auth_response _ _) (Genuine-Grown w _ grown g.0, g.1)

  dispatch-Genuine :
      (t : MessageType) (h : ℕ) (body : Str) (w : Server)
      → Ready h w
      → Ready h (dispatch q ssl t h body w)
  unfolding dispatch
  dispatch-Genuine auth_login h body w g = handle_auth_login-Genuine h body w g
  dispatch-Genuine auth_register h body w g = handle_auth_register-Genuine h body w g
  dispatch-Genuine text_message h body w g = Ready-Same h (handle_text_message-Same q h body w) g
  dispatch-Genuine group_message h body w g = Ready-Same h (handle_group_message-Same q h body w) g
  dispatch-Genuine create_group h body w g = Ready-Same h (handle_create_group-Same q h body w) g
  dispatch-Genuine join_group h body w g = Ready-Same h (handle_join_group-Same q h body w) g
  dispatch-Genuine p2p_offer h body w g = Ready-Same h (handle_p2p_offer-Same q h body w) g
  dispatch-Genuine p2p_answer h body w g = Ready-Same h (handle_p2p_answer-Same q h body w) g
  dispatch-Genuine p2p_ice_candidate h body w g =
      Ready-Same h (handle_p2p_ice_candidate-Same q h body w) g
  dispatch-Genuine ping h body w g = Ready-Same h (send_packet-Same q h pong _ w) g
  dispatch-Genuine _ h body w g = g

  pub handle_packet-Genuine :
      (h type : ℕ) (body : Str) (w : Server)
      → Ready h w
      → Ready h (handle_packet q ssl h type body w)
  unfolding handle_packet
  handle_packet-Genuine h type body w g = dispatch-Genuine (of_byte type) h body w g

  pub drain-Genuine :
      (h : ℕ) (b : Str) (w : Server)
      → Ready h w
      → Ready h (drain (λ n. n) (handle_packet q ssl h) b w).state
  drain-Genuine h b w =
      drain_induction (λ n. n) (handle_packet q ssl h)
        (λ b w. Ready h w → Ready h (drain (λ n. n) (handle_packet q ssl h) b w).state)
        (λ b w e g. rw (drain_waiting (λ n. n) (handle_packet q ssl h) b w e) g)
        (λ b w e g. rw (drain_mismatch (λ n. n) (handle_packet q ssl h) b w e) g)
        (λ b w type body rest e ih g.
          rw (drain_packet (λ n. n) (handle_packet q ssl h) b w e)
            (ih (handle_packet-Genuine h type body w g)))
        (length b) b w (omega arith)
