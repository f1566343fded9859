-- ===== src/Client/Answers.antt =====
-- The server's answers to a login and to a registration, as the client takes them.
use nullchat.Base.{ℕ, ◌≡◌, refl, ap, ◌∙◌, Str, text, true, false, List, [], ◌∷◌, ◌++◌, map, arith}
use nullchat.Qt.{Qt, IsQt}
use nullchat.Qt.Json.{string_at, put_string}
use nullchat.Crypto.{OpenSsl}
use nullchat.Protocol.{auth_response, of_byte, make_packet, serialize}
use nullchat.Database.{Database, register_user}
use nullchat.Server.State.{Server, send_packet}
use nullchat.Server.Groups.{GroupInfo}
use nullchat.Server.Handlers.{login_response, handle_auth_register}
use nullchat.Server.Login.{login_response_read}
use nullchat.Client.{Client, GroupEntry, auth_success, emit}
use nullchat.Client.Receive.{take_answer, groups_of, dispatch, handle_packet}

abbrev entry_of : GroupInfo → GroupEntry
entry_of g = record { id = g.id; name = g.name }

module _ (q : Qt) (lawful : IsQt q) where
  groups_read :
      (groups : List GroupInfo)
      → map
          (λ go. record { id = string_at q go "id"; name = string_at q go "name" })
          (map (λ g. put_string q (put_string q q.empty "id" g.id) "name" g.name) groups)
        ≡ map entry_of groups
  groups_read [] = refl
  groups_read (g ∷ groups) =
      let sent = put_string q (put_string q q.empty "id" g.id) "name" g.name in
      let id : q.at sent "id" ≡ q.string g.id = simp lawful.at-insert in
      let name : q.at sent "name" ≡ q.string g.name = simp lawful.at-insert in
      let id_read = ap q.to_string id ∙ lawful.to_string-string g.id in
      let name_read = ap q.to_string name ∙ lawful.to_string-string g.name in
      cc (id_read, name_read, groups_read groups)

  -- What the client does with an answer that says "ok".
  pub accepted_lem :
      (body : Str) (c : Client)
      → string_at q (q.parse body) "status" ≡ text "ok"
      → let obj = q.parse body in
        let user_id = string_at q obj "user_id" in
        let username = string_at q obj "username" in
        handle_packet q 2 body c
        ≡ emit (auth_success user_id username) (record c {
          user_id = user_id;
          username = username;
          is_null = q.to_bool (q.at obj "is_null");
          authenticated = true;
          initial_groups = groups_of q obj;
          pending_username = [];
          pending_password = [];
        })
  unfolding handle_packet of_byte take_answer dispatch
  accepted_lem body c says = ground arith

  login_response_more :
      (id username : Str) (groups : List GroupInfo)
      → let read = q.parse (q.print (login_response q id username groups)) in
        (q.to_bool (q.at read "is_null") ≡ false) × (groups_of q read ≡ map entry_of groups)
  unfolding login_response
  login_response_more id username groups = rw lawful.parse-print (
    ap q.to_bool (simp lawful.at-insert) ∙ lawful.to_bool-empty "is_null",
    simp (lawful.at-insert, lawful.to_array-array) (groups_read groups),
  )

  -- The client that receives the server's answer to a login takes over the id, the name and the
  -- groups that the server put into it, is authenticated and no null user, forgets the pending
  -- credentials, and emits `authSuccess` with id and name, and no other signal.
  pub handle_packet-login_response :
      (id username : Str) (groups : List GroupInfo) (c : Client)
      → handle_packet q 2 (q.print (login_response q id username groups)) c
        ≡ emit (auth_success id username) (record c {
          user_id = id;
          username = username;
          is_null = false;
          authenticated = true;
          initial_groups = map entry_of groups;
          pending_username = [];
          pending_password = [];
        })
  handle_packet-login_response id username groups c =
      let (status, user, name, _) = login_response_read q lawful id username groups in
      let (null, entries) = login_response_more id username groups in
      let body = q.print (login_response q id username groups) in
      accepted_lem body c status ∙ rw (user, name, null, entries) refl

  -- A registration that the server accepts, on a live socket, leaves every session as it was and is
  -- answered by one packet; but the client that takes this packet is authenticated, under the empty
  -- user id.
  pub handle_auth_register_unauthenticated :
      (ssl : OpenSsl) (h : ℕ) (json id : Str) (db : Database) (w : Server) (c : Client)
      → register_user q ssl w.db
          (string_at q (q.parse json) "username")
          (string_at q (q.parse json) "password")
        ≡ (true, id, db)
      → (w.objects h).socket ≡ true
      → let w' = handle_auth_register q ssl h json w in
        (body : Str) × (w'.sent ≡ w.sent ++ (h, serialize q (make_packet auth_response body)) ∷ [])
        × (w'.objects ≡ w.objects)
        × ((handle_packet q 2 body c).authenticated ≡ true)
        × ((handle_packet q 2 body c).user_id ≡ [])
  unfolding handle_auth_register send_packet
  handle_auth_register_unauthenticated ssl h json id db w c accepted live =
      let resp = put_string q q.empty "status" (text "ok") in
      let status : string_at q resp "status" ≡ text "ok" =
        ap q.to_string (simp lawful.at-insert) ∙ lawful.to_string-string (text "ok") in
      let user : string_at q resp "user_id" ≡ [] =
        ap q.to_string (simp lawful.at-insert) ∙ lawful.to_string-empty "user_id" in
      let read = ap (λ o. string_at q o "status") (lawful.parse-print resp) ∙ status in
      let taken = accepted_lem (q.print resp) c read in
      let named = ap (λ o. string_at q o "user_id") (lawful.parse-print resp) ∙ user in
      rw (accepted, live)
        (
          q.print resp,
          refl,
          refl,
          ap (λ c. c.authenticated) taken,
          ap (λ c. c.user_id) taken ∙ named,
        )
