-- ===== src/Client/EndToEnd.antt =====
-- A message on its way from one client over the server to another.
use nullchat.Base.{
  ℕ, ◌≡◌, sym, refl, ap, ◌∙◌, String, Str, true, some, [], ◌∷◌, ◌++◌, map, not, ◌==◌, filter,
}
use nullchat.Qt.{Qt, IsQt}
use nullchat.Qt.Json.{string_at, put_string}
use nullchat.Message.{ChatMessage}
use nullchat.Protocol.{text_message, group_message, of_byte, make_packet, serialize}
use nullchat.Database.{get_group_members}
use nullchat.Server.State.{Server, Session, find_session}
use nullchat.Server.Handlers.{forwarded_message, handle_text_message, handle_group_message}
use nullchat.Server.Delivery.{
  AllLive, sessions_of, forwarded_message_read, handle_text_message_lem, broadcast_to_group_lem,
}
use nullchat.Client.{
  Client, message_received, group_message_received, emit, direct_message_body, group_message_body,
}
use nullchat.Client.Receive.{handle_packet}

module _ (q : Qt) (lawful : IsQt q) where
  -- What the server reads in the two kinds of message.
  direct_message_body_read :
      (msg : ChatMessage)
      → let sent = q.parse (direct_message_body q msg) in
        (string_at q sent "recipient_id" ≡ msg.recipient_id)
        × (string_at q sent "content" ≡ msg.content)
        × (q.to_bool (q.at sent "encrypted") ≡ msg.encrypted)
        × (q.to_integer (q.at sent "timestamp") ≡ msg.timestamp)
  unfolding direct_message_body
  direct_message_body_read msg = rw lawful.parse-print (
    ap q.to_string (simp lawful.at-insert) ∙ lawful.to_string-string msg.recipient_id,
    ap q.to_string (simp lawful.at-insert) ∙ lawful.to_string-string msg.content,
    ap q.to_bool (simp lawful.at-insert) ∙ lawful.to_bool-bool msg.encrypted,
    ap q.to_integer (simp lawful.at-insert) ∙ lawful.to_integer-integer msg.timestamp,
  )

  pub group_message_body_read :
      (msg : ChatMessage)
      → let sent = q.parse (group_message_body q msg) in
        (string_at q sent "group_id" ≡ msg.group_id)
        × (string_at q sent "content" ≡ msg.content)
        × (q.to_bool (q.at sent "encrypted") ≡ msg.encrypted)
        × (q.to_integer (q.at sent "timestamp") ≡ msg.timestamp)
  unfolding group_message_body
  group_message_body_read msg = rw lawful.parse-print (
    ap q.to_string (simp lawful.at-insert) ∙ lawful.to_string-string msg.group_id,
    ap q.to_string (simp lawful.at-insert) ∙ lawful.to_string-string msg.content,
    ap q.to_bool (simp lawful.at-insert) ∙ lawful.to_bool-bool msg.encrypted,
    ap q.to_integer (simp lawful.at-insert) ∙ lawful.to_integer-integer msg.timestamp,
  )

  -- The server passes the direct message of a session that has logged in to the recipient's
  -- session, in one packet, if there is such a session and its socket is live; and the client that
  -- takes this packet emits exactly one signal: the message as it was sent, without ids of message,
  -- group and recipient, under the id and the name that the server has for the sender.
  pub handle_packet-direct_message :
      (h r : ℕ) (msg : ChatMessage) (w : Server) (c : Client)
      → (w.objects h).authenticated ≡ true
      → find_session w msg.recipient_id ≡ some r
      → (w.objects r).socket ≡ true
      → (body : Str) × (handle_text_message q h (direct_message_body q msg) w
          ≡ record w { sent = w.sent ++ (r, serialize q (make_packet text_message body)) ∷ [] })
        × (handle_packet q 3 body c
            ≡ emit
                (message_received (record {
                  id = [];
                  sender_id = (w.objects h).user_id;
                  sender_name = (w.objects h).username;
                  content = msg.content;
                  group_id = [];
                  recipient_id = [];
                  encrypted = msg.encrypted;
                  timestamp = msg.timestamp;
                }))
                c)
  unfolding handle_packet of_byte
  handle_packet-direct_message h r msg w c on found live =
      let s = w.objects h in
      let sent = q.parse (direct_message_body q msg) in
      let fwd = forwarded_message q s sent in
      let (to, content, mark, time) = direct_message_body_read msg in
      let (id, name, content', mark', time') = forwarded_message_read q lawful s sent in
      (
        q.print fwd,
        (handle_text_message_lem q h (direct_message_body q msg) w on).1 r (rw to found) live,
        rw
            (
              id,
              name,
              ap q.to_string content' ∙ content,
              ap q.to_bool mark' ∙ mark,
              ap q.to_integer time' ∙ time,
            )
            refl,
      )

  -- The group id that is put into a forwarded message is read back, and hides nothing else.
  pub group_forwarded_read :
      (s : Session) (obj : q.Object)
      → let group_id = string_at q obj "group_id" in
        let read =
          q.parse (q.print (put_string q (forwarded_message q s obj) "group_id" group_id)) in
        (string_at q read "sender_id" ≡ s.user_id)
        × (string_at q read "sender_name" ≡ s.username)
        × (q.at read "content" ≡ q.at obj "content")
        × (q.at read "encrypted" ≡ q.at obj "encrypted")
        × (q.at read "timestamp" ≡ q.at obj "timestamp")
  group_forwarded_read s obj =
      let fwd = forwarded_message q s obj in
      let (id, name, content, mark, time) = forwarded_message_read q lawful s obj in
      let more = put_string q fwd "group_id" (string_at q obj "group_id") in
      let as_before : (k : String)
          → q.at more k ≡ q.at fwd k
          → q.at more k ≡ q.at (q.parse (q.print fwd)) k =
        λ k e. e ∙ ap (λ o. q.at o k) (sym (lawful.parse-print fwd)) in
      rw (lawful.parse-print more) (
        ap q.to_string (as_before "sender_id" (simp lawful.at-insert)) ∙ id,
        ap q.to_string (as_before "sender_name" (simp lawful.at-insert)) ∙ name,
        as_before "content" (simp lawful.at-insert) ∙ content,
        as_before "encrypted" (simp lawful.at-insert) ∙ mark,
        as_before "timestamp" (simp lawful.at-insert) ∙ time,
      )

  group_forwarded_id :
      (s : Session) (obj : q.Object)
      → let group_id = string_at q obj "group_id" in
        let read =
          q.parse (q.print (put_string q (forwarded_message q s obj) "group_id" group_id)) in
        string_at q read "group_id" ≡ group_id
  group_forwarded_id s obj = rw lawful.parse-print (
      ap q.to_string (simp lawful.at-insert) ∙ lawful.to_string-string (string_at q obj "group_id"))

  -- The text that the server passes on for a group message, and the message that it makes of it.
  abbrev pub passed_on : Session → ChatMessage → Str
  passed_on s msg =
      let obj = q.parse (group_message_body q msg) in
      q.print (put_string q (forwarded_message q s obj) "group_id" (string_at q obj "group_id"))

  abbrev pub as_received : Session → ChatMessage → ChatMessage
  as_received s msg = record {
    id = [];
    sender_id = s.user_id;
    sender_name = s.username;
    content = msg.content;
    group_id = msg.group_id;
    recipient_id = [];
    encrypted = msg.encrypted;
    timestamp = msg.timestamp;
  }

  pub handle_group_message_lem :
      (h : ℕ) (msg : ChatMessage) (w : Server)
      → (w.objects h).authenticated ≡ true
      → AllLive w
      → let s = w.objects h in
        let (members, db) = get_group_members w.db msg.group_id in
        let others = sessions_of w (filter (λ m. not (m == s.user_id)) members) in
        let bytes = serialize q (make_packet group_message (passed_on s msg)) in
        handle_group_message q h (group_message_body q msg) w
        ≡ record w { db = db; sent = w.sent ++ map (λ i. (i, bytes)) others }
  unfolding handle_group_message
  handle_group_message_lem h msg w on live =
      let s = w.objects h in
      let sent = q.parse (group_message_body q msg) in
      simp (on, ← (group_message_body_read msg).0)
        (broadcast_to_group_lem q (string_at q sent "group_id") s.user_id
          (make_packet group_message (passed_on s msg)) w live)

  pub handle_packet-passed_on :
      (s : Session) (msg : ChatMessage) (c : Client)
      → handle_packet q 4 (passed_on s msg) c ≡ emit (group_message_received (as_received s msg)) c
  unfolding handle_packet of_byte
  handle_packet-passed_on s msg c =
      let sent = q.parse (group_message_body q msg) in
      let (to, content, mark, time) = group_message_body_read msg in
      let (id, name, content', mark', time') = group_forwarded_read s sent in
      let group = group_forwarded_id s sent in
      rw
        (
          id,
          name,
          ap q.to_string content' ∙ content,
          ap q.to_bool mark' ∙ mark,
          ap q.to_integer time' ∙ time,
          group ∙ to,
        )
        refl

  -- The server passes the group message of a session that has logged in, in one packet each, to the
  -- sessions of the other members of the group, if the sockets in the registry are live; and a
  -- client that takes this packet emits exactly one signal: the message as it was sent, without its
  -- id, with its group, under the id and the name that the server has for the sender.
  pub handle_packet-group_message :
      (h : ℕ) (msg : ChatMessage) (w : Server) (c : Client)
      → (w.objects h).authenticated ≡ true
      → AllLive w
      → let s = w.objects h in
        let (members, db) = get_group_members w.db msg.group_id in
        let others = sessions_of w (filter (λ m. not (m == s.user_id)) members) in
        (body : Str) × (handle_group_message q h (group_message_body q msg) w ≡ record w {
          db = db;
          sent = w.sent ++ map (λ i. (i, serialize q (make_packet group_message body))) others;
        })
        × (handle_packet q 4 body c
            ≡ emit
                (group_message_received (record {
                  id = [];
                  sender_id = s.user_id;
                  sender_name = s.username;
                  content = msg.content;
                  group_id = msg.group_id;
                  recipient_id = [];
                  encrypted = msg.encrypted;
                  timestamp = msg.timestamp;
                }))
                c)
  handle_packet-group_message h msg w c on live = (
    passed_on (w.objects h) msg,
    handle_group_message_lem h msg w on live,
    handle_packet-passed_on (w.objects h) msg c,
  )
