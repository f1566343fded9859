-- ===== src/Server/Presence.antt =====
-- The notices of `handleAuthLogin` and `onDisconnected` go to the group "", which the source takes
-- for a group without members.
use nullchat.Base.{
  ℕ, ◌≡◌, ◌≢◌, ◌∙◌, Str, text, ◌==◌, Bool, true, ◌&&◌, some, List, [], ◌∷◌, any, any-append, eqb,
  arith, Option-cases, Bool-cases, inl, inr,
}
use nullchat.Qt.{Qt}
use nullchat.Protocol.{MessageType, Packet, serialize, group_info}
use nullchat.Database.{Database, ready, get_group_members}
use nullchat.Database
use nullchat.Database.Membership.{is_member, add_member_runs, any-get_group_members}
use nullchat.Server.State.{Server, find_session, send_raw, send_packet}
use nullchat.Server.Groups
use nullchat.Server.Groups.{send_members, broadcast_to_group}
use nullchat.Qt.Json.{string_at, put_string}
use nullchat.Server.Handlers.{handle_join_group}
use nullchat.Server.Frame.{send_raw-Same, send_packet-Same}

-- These bytes have been written to this session.
abbrev pub received : ℕ → Str → Server → Bool
received h bytes w = any (λ (i, b). eqb i h && b == bytes) w.sent

received-send_raw :
    (h i : ℕ) (bytes other : Str) (w : Server)
    → received h bytes w ≡ true
    → received h bytes (send_raw i other w) ≡ true
unfolding send_raw
received-send_raw h i bytes other w r =
    ground (arith, any-append (λ (i, b). eqb i h && b == bytes) w.sent ((i, other) ∷ []))

received-send_raw_self :
    (h : ℕ) (bytes : Str) (w : Server)
    → (w.objects h).socket ≡ true
    → received h bytes (send_raw h bytes w) ≡ true
unfolding send_raw
received-send_raw_self h bytes w live =
    ground (arith, any-append (λ (i, b). eqb i h && b == bytes) w.sent ((h, bytes) ∷ []))

-- What has been received stays received.
received-send_members :
    (h : ℕ) (bytes sender_id : Str) (ms : List Str) (w : Server)
    → received h bytes w ≡ true
    → received h bytes (send_members bytes sender_id ms w) ≡ true
unfolding send_members
received-send_members h bytes sender_id [] w r = r
received-send_members h bytes sender_id (m ∷ ms) w r = elim (Bool-cases (m == sender_id)) [
  | inl own ↦ ground (arith, received-send_members h bytes sender_id ms w)
  | inr other ↦ elim (Option-cases (find_session w m)) [
    | inl absent ↦ ground (arith, received-send_members h bytes sender_id ms w)
    | inr (i, present) ↦
        let sent = received-send_raw h i bytes bytes w r in
        ground (arith, received-send_members h bytes sender_id ms (send_raw i bytes w) sent)
  ]
]

send_members_reaches :
    (h : ℕ) (bytes sender_id member_id : Str) (ms : List Str) (w : Server)
    → any (λ m. m == member_id) ms ≡ true
    → member_id ≢ sender_id
    → find_session w member_id ≡ some h
    → (w.objects h).socket ≡ true
    → received h bytes (send_members bytes sender_id ms w) ≡ true
unfolding send_members find_session
send_members_reaches h bytes sender_id member_id [] w listed ne found live = cc
send_members_reaches h bytes sender_id member_id (m ∷ ms) w listed ne found live =
    elim (Bool-cases (m == sender_id)) [
      | inl own ↦ ground (arith, send_members_reaches h bytes sender_id member_id ms w)
      | inr other ↦ elim (Option-cases (find_session w m)) [
        | inl absent ↦ ground (arith, send_members_reaches h bytes sender_id member_id ms w)
        | inr (i, present) ↦
            let same = send_raw-Same i bytes w in
            ground (
              arith,
              send_members_reaches h bytes sender_id member_id ms (send_raw i bytes w),
              received-send_members h bytes sender_id ms (send_raw i bytes w),
              received-send_raw_self h bytes w,
            )
      ]
    ]

module _ (q : Qt) where
  send_packet-db :
      (h : ℕ) (type : MessageType) (body : Str) (w : Server)
      → (send_packet q h type body w).db ≡ w.db
  unfolding send_packet
  send_packet-db h type body w = ground arith

  -- A broadcast reaches each member of the group with a live session, but for the sender.
  pub broadcast_to_group_reaches :
      (h : ℕ) (group_id sender_id member_id : Str) (pkt : Packet) (w : Server)
      → is_member w.db.members group_id member_id ≡ true
      → ready w.db ≡ true
      → member_id ≢ sender_id
      → find_session w member_id ≡ some h
      → (w.objects h).socket ≡ true
      → received h (serialize q pkt) (broadcast_to_group q group_id sender_id pkt w) ≡ true
  unfolding broadcast_to_group find_session
  broadcast_to_group_reaches h group_id sender_id member_id pkt w member runs ne found live =
      let (members, db) = get_group_members w.db group_id in
      send_members_reaches h (serialize q pkt) sender_id member_id members (record w { db = db })
        (any-get_group_members w.db group_id member_id runs ∙ member) ne found live

  -- A session that has logged in and is found under its id, with a live socket, joins with a packet
  -- that names no group: the next broadcast to the empty group by another user, such as a notice of
  -- presence, is written to this session. The statements of the database must run.
  pub handle_join_group_presence :
      (h : ℕ) (json sender_id : Str) (pkt : Packet) (w : Server)
      → (w.objects h).authenticated ≡ true
      → (w.objects h).socket ≡ true
      → string_at q (q.parse json) "group_id" ≡ []
      → w.db.faults ≡ []
      → find_session w (w.objects h).user_id ≡ some h
      → (w.objects h).user_id ≢ sender_id
      → received h
          (serialize q pkt)
          (broadcast_to_group q [] sender_id pkt (handle_join_group q h json w))
        ≡ true
  unfolding handle_join_group Groups.add_member find_session
  handle_join_group_presence h json sender_id pkt w on live anonymous runs found ne =
      let obj = q.parse json in
      let key = string_at q obj "encrypted_key" in
      let id = (w.objects h).user_id in
      let (done, db) = Database.add_member w.db (string_at q obj "group_id") id key in
      let resp =
        put_string q (put_string q q.empty "status" (text "ok")) "group_id"
          (string_at q obj "group_id") in
      let joined = record w { db = db } in
      let member = add_member_runs w.db (string_at q obj "group_id") id key runs in
      let told = send_packet q h group_info (q.print resp) joined in
      let same = send_packet-Same q h group_info (q.print resp) joined in
      let kept = send_packet-db h group_info (q.print resp) joined in
      rw on (
        broadcast_to_group_reaches h [] sender_id id pkt told (ground arith) (ground arith) ne
          (ground arith) (ground arith))
