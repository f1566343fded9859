-- ===== src/Server/Frame.antt =====
-- What sending leaves alone: the session objects, the registry, the user and the message table.
pub mod Handlers
use nullchat.Base.{
  ℕ, ◌≡◌, refl, ◌∙◌, Str, ◌==◌, List, [], ◌∷◌, if◌then◌else◌, arith, Option-cases, Bool-cases, inl,
  inr,
}
use nullchat.Qt.{Qt}
use nullchat.Protocol.{MessageType, Packet, serialize}
use nullchat.Database.{Database, GroupRecord, get_group_members}
use nullchat.Database
use nullchat.Database.Users.{users-get_group_members, users-get_user_groups}
use nullchat.Database.Messages.{messages-get_group_members, messages-get_user_groups}
use nullchat.Server.State.{Server, find_session, send_raw, send_packet}
use nullchat.Server.Groups.{group_infos, get_user_groups, send_members, broadcast_to_group}
use nullchat.Server.Handlers.{send_to}

-- The two servers have the same sessions, the same registry, the same users and stored messages.
pub record Same (w w' : Server) : Type 0 where
  pub objects : w'.objects ≡ w.objects
  pub registry : w'.registry ≡ w.registry
  pub created : w'.created ≡ w.created
  pub users : w'.db.users ≡ w.db.users
  pub messages : w'.db.messages ≡ w.db.messages

pub send_raw-Same : (h : ℕ) (bytes : Str) (w : Server) → Same w (send_raw h bytes w)
unfolding send_raw
send_raw-Same h bytes w = ground arith

send_members-Same :
    (bytes sender_id : Str) (ms : List Str) (w : Server)
    → Same w (send_members bytes sender_id ms w)
unfolding send_members
send_members-Same bytes sender_id [] w = ground arith
send_members-Same bytes sender_id (m ∷ ms) w = elim (Bool-cases (m == sender_id)) [
  | inl own ↦ rw own (send_members-Same bytes sender_id ms w)
  | inr other ↦ elim (Option-cases (find_session w m)) [
    | inl absent ↦ rw (other, absent) (send_members-Same bytes sender_id ms w)
    | inr (h, present) ↦
        let sent = send_raw-Same h bytes w in
        let rest = send_members-Same bytes sender_id ms (send_raw h bytes w) in
        rw (other, present) (ground arith)
  ]
]

module _ (q : Qt) where
  pub send_packet-Same :
      (h : ℕ) (type : MessageType) (body : Str) (w : Server) → Same w (send_packet q h type body w)
  unfolding send_packet
  send_packet-Same h type body w = ground arith

  pub broadcast_to_group-Same :
      (group_id sender_id : Str) (pkt : Packet) (w : Server)
      → Same w (broadcast_to_group q group_id sender_id pkt w)
  unfolding broadcast_to_group
  broadcast_to_group-Same group_id sender_id pkt w =
      let (members, db) = get_group_members w.db group_id in
      let sent = send_members-Same (serialize q pkt) sender_id members (record w { db = db }) in
      ground
        (arith, users-get_group_members w.db group_id, messages-get_group_members w.db group_id)

  pub send_to-Same :
      (target_id : Str) (type : MessageType) (obj : q.Object) (w : Server)
      → Same w (send_to q target_id type obj w)
  unfolding send_to
  send_to-Same target_id type obj w = ground arith

users-group_infos : (db : Database) (rs : List GroupRecord) → (group_infos db rs).1.users ≡ db.users
unfolding group_infos
users-group_infos db [] = refl
users-group_infos db (r ∷ rs) =
    users-group_infos (get_group_members db r.id).1 rs ∙ users-get_group_members db r.id

pub users-get_user_groups_info :
    (db : Database) (user_id : Str) → (get_user_groups db user_id).1.users ≡ db.users
unfolding get_user_groups
users-get_user_groups_info db user_id =
    users-group_infos (Database.get_user_groups db user_id).1
      (Database.get_user_groups db user_id).0
    ∙ users-get_user_groups db user_id

messages-group_infos :
    (db : Database) (rs : List GroupRecord) → (group_infos db rs).1.messages ≡ db.messages
unfolding group_infos
messages-group_infos db [] = refl
messages-group_infos db (r ∷ rs) =
    messages-group_infos (get_group_members db r.id).1 rs ∙ messages-get_group_members db r.id

pub messages-get_user_groups_info :
    (db : Database) (user_id : Str) → (get_user_groups db user_id).1.messages ≡ db.messages
unfolding get_user_groups
messages-get_user_groups_info db user_id =
    messages-group_infos (Database.get_user_groups db user_id).1
      (Database.get_user_groups db user_id).0
    ∙ messages-get_user_groups db user_id
