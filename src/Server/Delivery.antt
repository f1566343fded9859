-- ===== src/Server/Delivery.antt =====
-- Who gets a message, and what is in it.
use nullchat.Base.{
  ℕ, ◌≡◌, ap, ◌∙◌, Str, ◌==◌, true, not, none, some, List, [], ◌∷◌, ◌++◌, map, append_assoc,
  append-nil, filter, arith, Option-cases, Bool-cases, inl, inr,
}
use nullchat.Base.Map.{find}
use nullchat.Qt.{Qt, IsQt}
use nullchat.Protocol.{text_message, Packet, make_packet, serialize}
use nullchat.Database.{get_group_members}
use nullchat.Server.State.{Server, Session, find_session, send_raw}
use nullchat.Server.Groups.{send_members, broadcast_to_group}
use nullchat.Qt.Json.{string_at}
use nullchat.Server.Handlers.{forwarded_message, handle_text_message}

module _ (q : Qt) (lawful : IsQt q) where
  -- A forwarded message, read back by its recipient, names the session that sent it as its sender,
  -- whatever sender the packet itself names, and passes content, flag and time on as they came.
  pub forwarded_message_read :
      (s : Session) (obj : q.Object)
      → let read = q.parse (q.print (forwarded_message q s obj)) in
        (string_at q read "sender_id" ≡ s.user_id)
        × (string_at q read "sender_name" ≡ s.username)
        × (q.at read "content" ≡ q.at obj "content")
        × (q.at read "encrypted" ≡ q.at obj "encrypted")
        × (q.at read "timestamp" ≡ q.at obj "timestamp")
  unfolding forwarded_message
  forwarded_message_read s obj =
      let fwd = forwarded_message q s obj in
      let id : q.at fwd "sender_id" ≡ q.string s.user_id = simp lawful.at-insert in
      let name : q.at fwd "sender_name" ≡ q.string s.username = simp lawful.at-insert in
      rw lawful.parse-print (
        ap q.to_string id ∙ lawful.to_string-string s.user_id,
        ap q.to_string name ∙ lawful.to_string-string s.username,
        simp lawful.at-insert,
        simp lawful.at-insert,
        simp lawful.at-insert,
      )

module _ (q : Qt) where
  -- A direct message of a session that has logged in is written to the recipient's session, once,
  -- if there is one with a live socket; to nobody if there is none. Nothing else changes.
  pub handle_text_message_lem :
      (h : ℕ) (json : Str) (w : Server)
      → (w.objects h).authenticated ≡ true
      → let obj = q.parse json in
        let to = find_session w (string_at q obj "recipient_id") in
        let bytes =
          serialize q
            (make_packet text_message (q.print (forwarded_message q (w.objects h) obj))) in
        (to ≡ none → handle_text_message q h json w ≡ w)
        × ((r : ℕ)
            → to ≡ some r
            → (w.objects r).socket ≡ true
            → handle_text_message q h json w ≡ record w { sent = w.sent ++ (r, bytes) ∷ [] })
  unfolding handle_text_message
  handle_text_message_lem h json w on = (λ e. ground arith, λ r e live. ground arith)

-- The sessions of users, in their order; who has none is left out.
abbrev pub sessions_of : Server → List Str → List ℕ
sessions_of w [] = []
sessions_of w (m ∷ ms) =
    let rest = sessions_of w ms in elim (find_session w m) [ none ↦ rest | some h ↦ h ∷ rest ]

-- Every session in the registry has its socket.
abbrev pub AllLive : Server → Type 0
AllLive w = (id : Str) (h : ℕ) → find_session w id ≡ some h → (w.objects h).socket ≡ true

send_members_lem :
    (bytes sender_id : Str) (ms : List Str) (w : Server) (log : List (ℕ × Str))
    → AllLive w
    → send_members bytes sender_id ms (record w { sent = log }) ≡ record w {
      sent = log ++ map (λ h. (h, bytes)) (sessions_of w (filter (λ m. not (m == sender_id)) ms));
    }
unfolding send_members send_raw find_session
send_members_lem bytes sender_id [] w log live = rw append-nil
send_members_lem bytes sender_id (m ∷ ms) w log live = elim (Bool-cases (m == sender_id)) [
  | inl own ↦ rw own (send_members_lem bytes sender_id ms w log live)
  | inr other ↦ elim (Option-cases (find m w.registry)) [
    | inl absent ↦ ground (arith, send_members_lem bytes sender_id ms w log live)
    | inr (h, present) ↦
        let others = sessions_of w (filter (λ m. not (m == sender_id)) ms) in
        ground (
          arith,
          live m h present,
          send_members_lem bytes sender_id ms w (log ++ (h, bytes) ∷ []) live,
          append_assoc log ((h, bytes) ∷ []) (map (λ h. (h, bytes)) others),
        )
  ]
]

module _ (q : Qt) where
  -- A broadcast to a group writes the packet once to the session of each member but the sender, in
  -- the members' order, and to no other session; members without a session are passed over. The
  -- sockets in the registry must be live. But for that and the query, nothing changes.
  pub broadcast_to_group_lem :
      (group_id sender_id : Str) (pkt : Packet) (w : Server)
      → AllLive w
      → let (members, db) = get_group_members w.db group_id in
        let to = sessions_of w (filter (λ m. not (m == sender_id)) members) in
        broadcast_to_group q group_id sender_id pkt w
        ≡ record w { db = db; sent = w.sent ++ map (λ h. (h, serialize q pkt)) to }
  unfolding broadcast_to_group find_session
  broadcast_to_group_lem group_id sender_id pkt w live =
      let (members, db) = get_group_members w.db group_id in
      send_members_lem (serialize q pkt) sender_id members (record w { db = db }) w.sent live
