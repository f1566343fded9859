-- ===== src/Ui/MainWindow/Create.antt =====
-- A group that the user creates: at the server, and in the window.
use nullchat.Base.{
  ◌≡◌, ◌≢◌, refl, ap, ◌∙◌, ℕ, Str, text, ◌==◌, is_empty, true, false, Option, some, [], ◌∷◌, ◌++◌,
  any, arith, drop, length, drop-append_self,
}
use nullchat.Qt.{Qt, IsQt}
use nullchat.Qt.Json.{string_at, put_string}
use nullchat.Crypto.{OpenSsl}
use nullchat.Crypto.Ecdh.{EcKeys}
use nullchat.Protocol.{group_info, make_packet, serialize, to_byte, of_byte}
use nullchat.Protocol
use nullchat.Database.Membership.{is_member, create_group_runs}
use nullchat.Server.State.{Server, send_packet, send_raw}
use nullchat.Server.Groups
use nullchat.Server.Handlers.{handle_create_group}
use nullchat.Client.{Client, group_created}
use nullchat.Client
use nullchat.Client.Receive.{handle_packet, dispatch}
use nullchat.Ui.MainWindow.{MainWindow}
use nullchat.Ui.MainWindow.Login.{on_signals}
use nullchat.Ui.MainWindow.Requests.{on_create_channel_requested}

is_empty_lem : (s : Str) → s ≢ [] → is_empty s ≡ false
is_empty_lem [] filled = absurd (filled refl)
is_empty_lem (x ∷ s) filled = refl

module _ (q : Qt) (lawful : IsQt q) where
  -- The texts of the request and of the answer.
  abbrev pub request : Str → Str
  request name = q.print (put_string q (put_string q q.empty "name" name) "encrypted_key" [])

  abbrev pub answer_of : Str → Str → Str
  answer_of group_id name = q.print (
      put_string q (put_string q (put_string q q.empty "status" (text "ok")) "group_id" group_id)
        "name" name)

  request_read :
      (name : Str)
      → (string_at q (q.parse (request name)) "name" ≡ name)
        × (string_at q (q.parse (request name)) "encrypted_key" ≡ [])
  request_read name = rw lawful.parse-print (
    ap q.to_string (simp lawful.at-insert) ∙ lawful.to_string-string name,
    ap q.to_string (simp lawful.at-insert) ∙ lawful.to_string-string [],
  )

  answer_read :
      (group_id name : Str)
      → (string_at q (q.parse (answer_of group_id name)) "group_id" ≡ group_id)
        × (string_at q (q.parse (answer_of group_id name)) "name" ≡ name)
  answer_read group_id name = rw lawful.parse-print (
    ap q.to_string (simp lawful.at-insert) ∙ lawful.to_string-string group_id,
    ap q.to_string (simp lawful.at-insert) ∙ lawful.to_string-string name,
  )

  answer_taken :
      (group_id name : Str) (c : Client)
      → (handle_packet q (to_byte group_info) (answer_of group_id name) c).signals
        ≡ c.signals ++ group_created group_id name ∷ []
  unfolding handle_packet dispatch of_byte to_byte
  answer_taken group_id name c = let read = answer_read group_id name in rw (read.0, read.1) refl

  news_lem :
      (group_id name : Str) (c : Client)
      → drop
          (length c.signals)
          (handle_packet q (to_byte group_info) (answer_of group_id name) c).signals
        ≡ group_created group_id name ∷ []
  news_lem group_id name c =
      rw (answer_taken group_id name c)
        (drop-append_self c.signals (group_created group_id name ∷ []))

  sent-on_create_channel_requested :
      (name : Str) (w : MainWindow)
      → is_empty name ≡ false
      → (on_create_channel_requested q (some name) w).network.sent
        ≡ w.network.sent ++ serialize q (make_packet Protocol.create_group (request name)) ∷ []
  unfolding on_create_channel_requested Client.create_group Client.send_packet
  sent-on_create_channel_requested name w given = rw given refl

  stored-handle_create_group :
      (h : ℕ) (name : Str) (server : Server)
      → (server.objects h).authenticated ≡ true
      → (server.objects h).socket ≡ true
      → server.db.faults ≡ []
      → any (λ g. g.id == q.uuid server.db.uuids) server.db.groups ≡ false
      → let id = q.uuid server.db.uuids in
        let server' = handle_create_group q h (request name) server in
        (any (λ g. g.id == id) server'.db.groups ≡ true)
        × (is_member server'.db.members id (server.objects h).user_id ≡ true)
        × (server'.sent
            ≡ server.sent ++ (h, serialize q (make_packet group_info (answer_of id name))) ∷ [])
  unfolding handle_create_group Groups.create_group send_packet send_raw
  stored-handle_create_group h name server admitted live runs fresh =
      let user = (server.objects h).user_id in
      let made = create_group_runs q server.db name user [] runs fresh in
      let read = request_read name in
      let given = is_empty_lem (q.uuid server.db.uuids) (lawful.uuid-ne-nil server.db.uuids) in
      rw (admitted, read.0, read.1, live, made.0, given)
        (ground (arith, made), ground (arith, made), refl)

  -- A name, not empty, that the user enters for a new channel goes to the server in one packet. If the
  -- session has logged in and has its socket, the statements of the database run, and its next UUID
  -- is new, the handler stores a group under the UUID, makes the session's user a member of it, and
  -- answers with one packet. The client takes it as the news of this group, and for no other signal,
  -- but the slots of the window leave it as it was: the list of channels does not get the new one.
  pub handle_create_group-on_create_channel_requested :
      (ec : EcKeys) (ssl : OpenSsl) (pin : Option Str) (h : ℕ) (name : Str) (server : Server)
      (w : MainWindow)
      → is_empty name ≡ false
      → (server.objects h).authenticated ≡ true
      → (server.objects h).socket ≡ true
      → server.db.faults ≡ []
      → any (λ g. g.id == q.uuid server.db.uuids) server.db.groups ≡ false
      → let id = q.uuid server.db.uuids in
        let asked = on_create_channel_requested q (some name) w in
        let server' = handle_create_group q h (request name) server in
        let told = handle_packet q (to_byte group_info) (answer_of id name) asked.network in
        let news = drop (length asked.network.signals) told.signals in
        (asked.network.sent
          ≡ w.network.sent ++ serialize q (make_packet Protocol.create_group (request name)) ∷ [])
        × (any (λ g. g.id == id) server'.db.groups ≡ true)
        × (is_member server'.db.members id (server.objects h).user_id ≡ true)
        × (server'.sent
            ≡ server.sent ++ (h, serialize q (make_packet group_info (answer_of id name))) ∷ [])
        × (news ≡ group_created id name ∷ [])
        × (on_signals ec ssl pin news (record asked { network = told })
            ≡ record asked { network = told })
  unfolding on_signals
  handle_create_group-on_create_channel_requested ec ssl pin h name server w given admitted live
        runs fresh =
      let id = q.uuid server.db.uuids in
      let asked = on_create_channel_requested q (some name) w in
      let (stored, joined, answered) =
        stored-handle_create_group h name server admitted live runs fresh in
      let heard = news_lem id name asked.network in
      (
        sent-on_create_channel_requested name w given,
        stored,
        joined,
        answered,
        heard,
        rw heard refl,
      )
