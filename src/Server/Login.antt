-- ===== src/Server/Login.antt =====
-- What a login does to the server and what the client reads of it.
use nullchat.Base.{ℕ, ◌≡◌, refl, ap, ◌∙◌, Str, text, true, some, List, [], ◌∷◌, ◌++◌, map, arith}
use nullchat.Base.Map.{find, find-insert}
use nullchat.Qt.{Qt, IsQt}
use nullchat.Crypto.{OpenSsl}
use nullchat.Protocol.{auth_response, user_online, make_packet, serialize}
use nullchat.Database.{Database, login_user}
use nullchat.Server.State.{Server, set_session, find_session, send_raw, send_packet}
use nullchat.Server.Groups.{GroupInfo, get_user_groups, broadcast_to_group}
use nullchat.Qt.Json.{string_at, put_string}
use nullchat.Server.Handlers.{
  login_response, presence, on_authenticated, accept_login, handle_auth_login,
}
use nullchat.Server.Frame.{broadcast_to_group-Same}

-- Id and name of a group, as the client reads an entry, and as the server has them.
abbrev entry_read : (q : Qt) → q.Object → Str × Str
entry_read q g = (string_at q g "id", string_at q g "name")

abbrev entry_of : GroupInfo → Str × Str
entry_of g = (g.id, g.name)

module _ (q : Qt) (lawful : IsQt q) where
  entries_read :
      (groups : List GroupInfo)
      → map
          (entry_read q)
          (map (λ g. put_string q (put_string q q.empty "id" g.id) "name" g.name) groups)
        ≡ map entry_of groups
  entries_read [] = refl
  entries_read (g ∷ groups) =
      let sent = put_string q (put_string q q.empty "id" g.id) "name" g.name in
      let id : q.at sent "id" ≡ q.string g.id = simp lawful.at-insert in
      let name : q.at sent "name" ≡ q.string g.name = simp lawful.at-insert in
      let id_read = ap q.to_string id ∙ lawful.to_string-string g.id in
      let name_read = ap q.to_string name ∙ lawful.to_string-string g.name in
      cc (id_read, name_read, entries_read groups)

  -- The client that reads the answer to its login finds the status "ok", its id, its name, and an
  -- entry with id and name for each of its groups.
  pub login_response_read :
      (id username : Str) (groups : List GroupInfo)
      → let read = q.parse (q.print (login_response q id username groups)) in
        (string_at q read "status" ≡ text "ok")
        × (string_at q read "user_id" ≡ id)
        × (string_at q read "username" ≡ username)
        × (map (entry_read q) (q.to_array (q.at read "groups")) ≡ map entry_of groups)
  unfolding login_response
  login_response_read id username groups =
      let sent = login_response q id username groups in
      let status : q.at sent "status" ≡ q.string (text "ok") = simp lawful.at-insert in
      let user : q.at sent "user_id" ≡ q.string id = simp lawful.at-insert in
      let name : q.at sent "username" ≡ q.string username = simp lawful.at-insert in
      rw lawful.parse-print (
        ap q.to_string status ∙ lawful.to_string-string (text "ok"),
        ap q.to_string user ∙ lawful.to_string-string id,
        ap q.to_string name ∙ lawful.to_string-string username,
        simp (lawful.at-insert, lawful.to_array-array) (entries_read groups),
      )

module _ (q : Qt) where
  accept_login_lem :
      (h : ℕ) (id username : Str) (w : Server)
      → (w.objects h).socket ≡ true
      → let w' = accept_login q h id username w in
        (find_session w' id ≡ some h)
        × ((w'.objects h).authenticated ≡ true)
        × ((w'.objects h).user_id ≡ id)
        × ((w'.objects h).username ≡ username)
        × ((groups : List GroupInfo) × (earlier : List (ℕ × Str)) × (w'.sent
              ≡ earlier
                ++ (
                  h,
                  serialize q
                      (make_packet auth_response (q.print (login_response q id username groups))),
                )
                  ∷ []))
  unfolding accept_login send_packet find_session
  accept_login_lem h id username w live =
      let s = record (w.objects h) { authenticated = true; user_id = id; username = username } in
      let known = set_session h s w in
      let (groups, db) = get_user_groups known.db id in
      let registered = on_authenticated id h (record known { db = db }) in
      let pkt = make_packet user_online (q.print (presence q id username true)) in
      let told = broadcast_to_group q [] id pkt registered in
      let same = broadcast_to_group-Same q [] id pkt registered in
      let bytes =
        serialize q (make_packet auth_response (q.print (login_response q id username groups))) in
      let now : told.objects h ≡ s = ap (λ objects. objects h) same.objects ∙ ground arith in
      let open' : (told.objects h).socket ≡ true = ap (λ s. s.socket) now ∙ live in
      let sent : send_raw h bytes told ≡ record told { sent = told.sent ++ (h, bytes) ∷ [] } =
        rw open' in
      let found : find id told.registry ≡ some h =
        ap (find id) same.registry ∙ ground (arith, find-insert id id h w.registry) in
      (
        ap (λ w. find id w.registry) sent ∙ found,
        ap (λ w. (w.objects h).authenticated) sent ∙ ap (λ s. s.authenticated) now,
        ap (λ w. (w.objects h).user_id) sent ∙ ap (λ s. s.user_id) now,
        ap (λ w. (w.objects h).username) sent ∙ ap (λ s. s.username) now,
        (groups, told.sent, ap (λ w. w.sent) sent),
      )

module _ (q : Qt) (ssl : OpenSsl) where
  -- A login that the database accepts, on a live socket, makes the session the one that is found
  -- under the user's id, authenticated with that id and the name of the login; and the last packet
  -- that is written is the answer with the status "ok", to this session.
  pub handle_auth_login_accepts :
      (h : ℕ) (json : Str) (w : Server) (id : Str) (db : Database)
      → let username = string_at q (q.parse json) "username" in
        let password = string_at q (q.parse json) "password" in
        login_user ssl w.db username password ≡ (true, id, db)
        → (w.objects h).socket ≡ true
        → let w' = handle_auth_login q ssl h json w in
          (find_session w' id ≡ some h)
          × ((w'.objects h).authenticated ≡ true)
          × ((w'.objects h).user_id ≡ id)
          × ((w'.objects h).username ≡ username)
          × ((groups : List GroupInfo) × (earlier : List (ℕ × Str)) × (w'.sent
                ≡ earlier
                  ++ (
                    h,
                    serialize q
                        (make_packet auth_response (q.print (login_response q id username groups))),
                  )
                    ∷ []))
  unfolding handle_auth_login
  handle_auth_login_accepts h json w id db accepted live =
      let username = string_at q (q.parse json) "username" in
      rw accepted (accept_login_lem q h id username (record w { db = db }) live)
