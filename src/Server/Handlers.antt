-- ===== src/Server/Handlers.antt =====
-- src/server/Session.cpp: `handlePacket` and the handlers. `h` is the session's number.
use nullchat.Base.{ℕ, Str, text, is_empty, Bool, true, none, some, List, [], map, if◌then◌else◌}
use nullchat.Base.Map.{insert}
use nullchat.Qt.{Qt}
use nullchat.Qt.Json.{string_at, put_string}
use nullchat.Crypto.{OpenSsl}
use nullchat.Protocol.{
  MessageType, auth_login, auth_register, auth_response, text_message, group_message, create_group,
  join_group, group_info, p2p_offer, p2p_answer, p2p_ice_candidate, ping, pong, user_online,
  of_byte, make_packet,
}
use nullchat.Database.{register_user, login_user}
use nullchat.Server.State.{Server, Session, set_session, find_session, send_packet}
use nullchat.Server.Groups.{GroupInfo, broadcast_to_group, get_user_groups, add_member}
use nullchat.Server.Groups

-- The slot of `Session::authenticated` in src/server/Server.cpp.
unfoldable pub on_authenticated : Str → ℕ → Server → Server
on_authenticated user_id h w = record w { registry = insert user_id h w.registry }

module _ (q : Qt) where
  open q use {Object, parse, print, empty, at, to_string}

  -- The sender, and what a message or a signal passes on unread.
  unfoldable pub forwarded_message : Session → Object → Object
  forwarded_message s obj =
      let named =
        put_string q (put_string q empty "sender_id" s.user_id) "sender_name" s.username in
      let filled = q.insert named "content" (at obj "content") in
      let marked = q.insert filled "encrypted" (at obj "encrypted") in
      q.insert marked "timestamp" (at obj "timestamp")

  -- `find_session_(target_id)` and, if there is one, `sendPacket` to it.
  unfoldable pub send_to : Str → MessageType → Object → Server → Server
  unfolding find_session send_packet
  send_to target_id type obj w = elim (find_session w target_id) [
    | none ↦ w
    | some target ↦ send_packet q target type (print obj) w
  ]

  unfoldable pub handle_text_message : ℕ → Str → Server → Server
  unfolding forwarded_message send_to
  handle_text_message h json w =
      let s = w.objects h in
      let obj = parse json in
      if s.authenticated
      then send_to (string_at q obj "recipient_id") text_message (forwarded_message s obj) w
      else w

  unfoldable pub handle_group_message : ℕ → Str → Server → Server
  unfolding forwarded_message
  handle_group_message h json w =
      let s = w.objects h in
      let obj = parse json in
      let group_id = string_at q obj "group_id" in
      let fwd = put_string q (forwarded_message s obj) "group_id" group_id in
      if s.authenticated
      then broadcast_to_group q group_id s.user_id (make_packet group_message (print fwd)) w
      else w

  unfoldable pub handle_create_group : ℕ → Str → Server → Server
  handle_create_group h json w =
      let s = w.objects h in
      let obj = parse json in
      let name = string_at q obj "name" in
      let (group_id, db) =
        Groups.create_group q w.db name s.user_id (string_at q obj "encrypted_key") in
      let status = if is_empty group_id then text "error" else text "ok" in
      let resp =
        put_string q (put_string q (put_string q empty "status" status) "group_id" group_id) "name"
          name in
      if s.authenticated then send_packet q h group_info (print resp) (record w { db = db }) else w

  unfoldable pub handle_join_group : ℕ → Str → Server → Server
  handle_join_group h json w =
      let s = w.objects h in
      let obj = parse json in
      let group_id = string_at q obj "group_id" in
      let (joined, db) = add_member w.db group_id s.user_id (string_at q obj "encrypted_key") in
      let resp = put_string q (put_string q empty "status" (text "ok")) "group_id" group_id in
      if s.authenticated then send_packet q h group_info (print resp) (record w { db = db }) else w

  unfoldable pub handle_p2p_offer : ℕ → Str → Server → Server
  unfolding send_to
  handle_p2p_offer h json w =
      let s = w.objects h in
      let obj = parse json in
      let from = put_string q (put_string q empty "from_id" s.user_id) "from_username" s.username in
      let offer =
        q.insert (q.insert from "sdp" (at obj "sdp")) "public_key" (at obj "public_key") in
      if s.authenticated then send_to (string_at q obj "target_id") p2p_offer offer w else w

  unfoldable pub handle_p2p_answer : ℕ → Str → Server → Server
  unfolding send_to
  handle_p2p_answer h json w =
      let s = w.objects h in
      let obj = parse json in
      let from = put_string q empty "from_id" s.user_id in
      let answer =
        q.insert (q.insert from "sdp" (at obj "sdp")) "public_key" (at obj "public_key") in
      if s.authenticated then send_to (string_at q obj "target_id") p2p_answer answer w else w

  unfoldable pub handle_p2p_ice_candidate : ℕ → Str → Server → Server
  unfolding send_to
  handle_p2p_ice_candidate h json w =
      let s = w.objects h in
      let obj = parse json in
      let from = put_string q empty "from_id" s.user_id in
      let ice = q.insert from "candidate" (at obj "candidate") in
      if s.authenticated then send_to (string_at q obj "target_id") p2p_ice_candidate ice w else w

  -- The answer to a login that succeeded.
  unfoldable pub login_response : Str → Str → List GroupInfo → Object
  login_response id username groups =
      let entry = λ (g : GroupInfo). put_string q (put_string q empty "id" g.id) "name" g.name in
      let status = put_string q empty "status" (text "ok") in
      let who = put_string q (put_string q status "user_id" id) "username" username in
      q.insert who "groups" (q.array (map entry groups))

  -- The notice that a user is there, or has gone.
  unfoldable pub presence : Str → Str → Bool → Object
  presence id username online =
      q.insert (put_string q (put_string q empty "user_id" id) "username" username) "online"
        (q.bool online)

  -- `handleAuthLogin` once the database has accepted: the session takes the identity, the server
  -- registers it, the empty group is told, and the client gets its answer.
  unfoldable pub accept_login : ℕ → Str → Str → Server → Server
  unfolding login_response presence set_session on_authenticated
  accept_login h id username w =
      let s = record (w.objects h) { authenticated = true; user_id = id; username = username } in
      let known = set_session h s w in
      let (groups, db) = get_user_groups known.db id in
      let registered = on_authenticated id h (record known { db = db }) in
      let pkt = make_packet user_online (print (presence id username true)) in
      let told = broadcast_to_group q [] id pkt registered in
      send_packet q h auth_response (print (login_response id username groups)) told

module _ (q : Qt) (ssl : OpenSsl) where
  open q use {Object, parse, print, empty}

  unfoldable pub handle_auth_login : ℕ → Str → Server → Server
  unfolding accept_login
  handle_auth_login h json w =
      let obj = parse json in
      let username = string_at q obj "username" in
      let (done, id, db) = login_user ssl w.db username (string_at q obj "password") in
      let failure =
        put_string q (put_string q empty "status" (text "error")) "error"
          (text "Invalid credentials") in
      if done
      then accept_login q h id username (record w { db = db })
      else send_packet q h auth_response (print failure) (record w { db = db })

  unfoldable pub handle_auth_register : ℕ → Str → Server → Server
  handle_auth_register h json w =
      let obj = parse json in
      let (done, id, db) =
        register_user q ssl w.db (string_at q obj "username") (string_at q obj "password") in
      let resp = put_string q empty "status" (if done then text "ok" else text "error") in
      send_packet q h auth_response (print resp) (record w { db = db })

  -- A type that the switch does not name is logged and dropped.
  unfoldable pub dispatch : MessageType → ℕ → Str → Server → Server
  dispatch auth_login h body w = handle_auth_login h body w
  dispatch auth_register h body w = handle_auth_register h body w
  dispatch text_message h body w = handle_text_message q h body w
  dispatch group_message h body w = handle_group_message q h body w
  dispatch create_group h body w = handle_create_group q h body w
  dispatch join_group h body w = handle_join_group q h body w
  dispatch p2p_offer h body w = handle_p2p_offer q h body w
  dispatch p2p_answer h body w = handle_p2p_answer q h body w
  dispatch p2p_ice_candidate h body w = handle_p2p_ice_candidate q h body w
  dispatch ping h body w = send_packet q h pong (text "{}") w
  dispatch _ h body w = w

  unfoldable pub handle_packet : ℕ → ℕ → Str → Server → Server
  unfolding dispatch
  handle_packet h type body w = dispatch (of_byte type) h body w
