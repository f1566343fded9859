-- ===== src/Server/Vouched/Handlers.antt =====
-- Each handler says only what the user table bears out.
use nullchat.Base.{
  ℕ, ◌≡◌, refl, ap, ◌∙◌, Str, Bool, true, List, [], ◌∷◌, arith, Bool-cases, inl, inr,
}
use nullchat.Qt.{Qt, IsQt}
use nullchat.Qt.Json.{string_at, put_string}
use nullchat.Protocol.{
  auth_response, text_message, group_message, group_info, p2p_offer, p2p_answer, p2p_ice_candidate,
  user_online, make_packet,
}
use nullchat.Crypto.{OpenSsl}
use nullchat.Database.{UserRecord, login_user}
use nullchat.Database.Users.{has_account, has_account-login_user}
use nullchat.Server.State.{Server, Session, set_session}
use nullchat.Server.Groups.{add_member, get_user_groups, broadcast_to_group}
use nullchat.Server.Groups
use nullchat.Server.Handlers.{
  forwarded_message, handle_text_message, handle_group_message, handle_create_group,
  handle_join_group, handle_p2p_offer, handle_p2p_answer, handle_p2p_ice_candidate, login_response,
  presence, on_authenticated, accept_login, handle_auth_login, handle_auth_register,
}
use nullchat.Server.Delivery.{forwarded_message_read}
use nullchat.Client.EndToEnd.{group_forwarded_read}
use nullchat.Server.Vouched.{
  has_id, vouches, Told, Told-send_packet, Told-send_to, Told-broadcast_to_group,
}

pub has_id-has_account :
    (us : List UserRecord) (id name : Str) → has_account us id name ≡ true → has_id us id ≡ true
has_id-has_account [] id name h = cc
has_id-has_account (u ∷ us) id name h = ground (arith, has_id-has_account us id name)

-- A session that has logged in has an account in the table.
abbrev pub Named : List UserRecord → Session → Type 0
Named us s = s.authenticated ≡ true → has_account us s.user_id s.username ≡ true

module _ (q : Qt) (lawful : IsQt q) (us : List UserRecord) (h : ℕ) (json : Str) (w : Server)
    (named : Named us (w.objects h)) (told : Told q us w.sent) where
  pub Told-handle_text_message : Told q us (handle_text_message q h json w).sent
  unfolding handle_text_message vouches
  Told-handle_text_message =
      let s = w.objects h in
      let obj = q.parse json in
      let read = forwarded_message_read q lawful s obj in
      elim (Bool-cases s.authenticated) [
        | inl on ↦
            rw (on, handle_text_message)
              (Told-send_to q us (string_at q obj "recipient_id") text_message
                (forwarded_message q s obj) w tt (rw (read.0, read.1) (named on)) told)
        | inr off ↦ rw (off, handle_text_message) told
      ]

  pub Told-handle_group_message : Told q us (handle_group_message q h json w).sent
  unfolding handle_group_message vouches make_packet
  Told-handle_group_message =
      let s = w.objects h in
      let obj = q.parse json in
      let group_id = string_at q obj "group_id" in
      let fwd = put_string q (forwarded_message q s obj) "group_id" group_id in
      let read = group_forwarded_read q lawful s obj in
      elim (Bool-cases s.authenticated) [
        | inl on ↦
            rw (on, handle_group_message)
              (Told-broadcast_to_group q us group_id s.user_id
                (make_packet group_message (q.print fwd)) w tt (rw (read.0, read.1) (named on))
                told)
        | inr off ↦ rw (off, handle_group_message) told
      ]

  pub Told-handle_create_group : Told q us (handle_create_group q h json w).sent
  unfolding handle_create_group vouches
  Told-handle_create_group = elim (Bool-cases (w.objects h).authenticated) [
    | inl on ↦ rw (on, handle_create_group) (Told-send_packet q us h group_info _ _ tt refl told)
    | inr off ↦ rw (off, handle_create_group) told
  ]

  pub Told-handle_join_group : Told q us (handle_join_group q h json w).sent
  unfolding handle_join_group vouches
  Told-handle_join_group = elim (Bool-cases (w.objects h).authenticated) [
    | inl on ↦ rw (on, handle_join_group) (Told-send_packet q us h group_info _ _ tt refl told)
    | inr off ↦ rw (off, handle_join_group) told
  ]

  pub Told-handle_p2p_offer : Told q us (handle_p2p_offer q h json w).sent
  unfolding handle_p2p_offer vouches
  Told-handle_p2p_offer =
      let s = w.objects h in
      let obj = q.parse json in
      let from =
        put_string q (put_string q q.empty "from_id" s.user_id) "from_username" s.username in
      let offer =
        q.insert (q.insert from "sdp" (q.at obj "sdp")) "public_key" (q.at obj "public_key") in
      let id : string_at q offer "from_id" ≡ s.user_id =
        ap q.to_string (simp lawful.at-insert) ∙ lawful.to_string-string s.user_id in
      let name : string_at q offer "from_username" ≡ s.username =
        ap q.to_string (simp lawful.at-insert) ∙ lawful.to_string-string s.username in
      elim (Bool-cases s.authenticated) [
        | inl on ↦
            rw (on, handle_p2p_offer)
              (Told-send_to q us (string_at q obj "target_id") p2p_offer offer w tt
                (rw (lawful.parse-print, id, name) (named on)) told)
        | inr off ↦ rw (off, handle_p2p_offer) told
      ]

  pub Told-handle_p2p_answer : Told q us (handle_p2p_answer q h json w).sent
  unfolding handle_p2p_answer vouches
  Told-handle_p2p_answer =
      let s = w.objects h in
      let obj = q.parse json in
      let from = put_string q q.empty "from_id" s.user_id in
      let said =
        q.insert (q.insert from "sdp" (q.at obj "sdp")) "public_key" (q.at obj "public_key") in
      let id : string_at q said "from_id" ≡ s.user_id =
        ap q.to_string (simp lawful.at-insert) ∙ lawful.to_string-string s.user_id in
      elim (Bool-cases s.authenticated) [
        | inl on ↦
            rw (on, handle_p2p_answer)
              (Told-send_to q us (string_at q obj "target_id") p2p_answer said w tt
                (rw (lawful.parse-print, id)
                  (has_id-has_account us s.user_id s.username (named on)))
                told)
        | inr off ↦ rw (off, handle_p2p_answer) told
      ]

  pub Told-handle_p2p_ice_candidate : Told q us (handle_p2p_ice_candidate q h json w).sent
  unfolding handle_p2p_ice_candidate vouches
  Told-handle_p2p_ice_candidate =
      let s = w.objects h in
      let obj = q.parse json in
      let from = put_string q q.empty "from_id" s.user_id in
      let said = q.insert from "candidate" (q.at obj "candidate") in
      let id : string_at q said "from_id" ≡ s.user_id =
        ap q.to_string (simp lawful.at-insert) ∙ lawful.to_string-string s.user_id in
      elim (Bool-cases s.authenticated) [
        | inl on ↦
            rw (on, handle_p2p_ice_candidate)
              (Told-send_to q us (string_at q obj "target_id") p2p_ice_candidate said w tt
                (rw (lawful.parse-print, id)
                  (has_id-has_account us s.user_id s.username (named on)))
                told)
        | inr off ↦ rw (off, handle_p2p_ice_candidate) told
      ]

module _ (q : Qt) (lawful : IsQt q) (us : List UserRecord) where
  pub presence_read :
      (id username : Str) (online : Bool)
      → let read = q.parse (q.print (presence q id username online)) in
        (string_at q read "user_id" ≡ id)
        × (string_at q read "username" ≡ username)
        × (string_at q read "public_key" ≡ [])
  unfolding presence
  presence_read id username online = rw lawful.parse-print (
    ap q.to_string (simp lawful.at-insert) ∙ lawful.to_string-string id,
    ap q.to_string (simp lawful.at-insert) ∙ lawful.to_string-string username,
    ap q.to_string (simp lawful.at-insert) ∙ lawful.to_string-empty "public_key",
  )

  response_read :
      (id username : Str) (groups : List Groups.GroupInfo)
      → let read = q.parse (q.print (login_response q id username groups)) in
        (string_at q read "user_id" ≡ id) × (string_at q read "username" ≡ username)
  unfolding login_response
  response_read id username groups = rw lawful.parse-print (
    ap q.to_string (simp lawful.at-insert) ∙ lawful.to_string-string id,
    ap q.to_string (simp lawful.at-insert) ∙ lawful.to_string-string username,
  )

  Told-accept_login :
      (h : ℕ) (id username : Str) (w : Server)
      → has_account us id username ≡ true
      → Told q us w.sent
      → Told q us (accept_login q h id username w).sent
  unfolding accept_login vouches make_packet
  Told-accept_login h id username w account told =
      let s = record (w.objects h) { authenticated = true; user_id = id; username = username } in
      let known = set_session h s w in
      let (groups, db) = get_user_groups known.db id in
      let registered = on_authenticated id h (record known { db = db }) in
      let on_line = presence_read id username true in
      let pkt = make_packet user_online (q.print (presence q id username true)) in
      let heard =
        Told-broadcast_to_group q us [] id pkt registered tt
          (rw (on_line.0, on_line.1, on_line.2, account)) told in
      let answer = response_read id username groups in
      Told-send_packet q us h auth_response (q.print (login_response q id username groups))
        (broadcast_to_group q [] id pkt registered) tt (rw (answer.0, answer.1) (ground arith))
        heard

  -- An answer without a user id names nobody.
  nobody :
      (o : q.Object)
      → string_at q o "user_id" ≡ []
      → vouches q us auth_response (q.parse (q.print o)) ≡ true
  unfolding vouches
  nobody o h = rw (lawful.parse-print, h)

  pub Told-handle_auth_login :
      (ssl : OpenSsl) (h : ℕ) (json : Str) (w : Server)
      → us ≡ w.db.users
      → Told q us w.sent
      → Told q us (handle_auth_login q ssl h json w).sent
  unfolding handle_auth_login
  Told-handle_auth_login ssl h json w e told =
      let obj = q.parse json in
      let username = string_at q obj "username" in
      let r = login_user ssl w.db username (string_at q obj "password") in
      elim (Bool-cases r.0) [
        | inl done ↦
            let found =
              has_account-login_user ssl w.db r.2 username (string_at q obj "password") r.1
                (ground arith) in
            rw (done, handle_auth_login)
              (Told-accept_login h r.1 username (record w { db = r.2 }) (rw e found) told)
        | inr failed ↦
            rw (failed, handle_auth_login)
              (Told-send_packet q us h auth_response _ (record w { db = r.2 }) tt
                (nobody _
                  (ap q.to_string (simp lawful.at-insert) ∙ lawful.to_string-empty "user_id"))
                told)
      ]

  -- The table after a registration is the table before with at most one row more behind it.
  pub Told-handle_auth_register :
      (ssl : OpenSsl) (h : ℕ) (json : Str) (w : Server)
      → Told q us w.sent
      → Told q us (handle_auth_register q ssl h json w).sent
  unfolding handle_auth_register
  Told-handle_auth_register ssl h json w told =
      Told-send_packet q us h auth_response _ _ tt
        (nobody _ (ap q.to_string (simp lawful.at-insert) ∙ lawful.to_string-empty "user_id")) told
