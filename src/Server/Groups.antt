-- ===== src/Server/Groups.antt =====
-- src/server/GroupManager.cpp over the database and the server's sessions.
use nullchat.Base.{Str, ◌==◌, Bool, none, some, List, [], ◌∷◌, if◌then◌else◌}
use nullchat.Qt.{Qt}
use nullchat.Protocol.{Packet, serialize}
use nullchat.Database.{Database, GroupRecord}
use nullchat.Database
use nullchat.Server.State.{Server, find_session, send_raw}

-- src/common/Message.h
pub record GroupInfo : Type 0 where
  pub id : Str
  pub name : Str
  pub member_ids : List Str
  pub encrypted_symmetric_key : Str

module _ (q : Qt) where
  unfoldable pub create_group : Database → Str → Str → Str → Str × Database
  create_group db name owner_id encrypted_key =
      Database.create_group q db name owner_id encrypted_key

unfoldable pub add_member : Database → Str → Str → Str → Bool × Database
add_member db group_id user_id encrypted_key = Database.add_member db group_id user_id encrypted_key

-- The loop over the records; each round asks the database for the members.
unfoldable pub group_infos : Database → List GroupRecord → List GroupInfo × Database
group_infos db [] = ([], db)
group_infos db (r ∷ rs) =
    let (member_ids, db1) = Database.get_group_members db r.id in
    let (groups, db2) = group_infos db1 rs in
    (
      record { id = r.id; name = r.name; member_ids = member_ids; encrypted_symmetric_key = [] }
          ∷ groups,
      db2,
    )

unfoldable pub get_user_groups : Database → Str → List GroupInfo × Database
unfolding group_infos
get_user_groups db user_id =
    let (records, db1) = Database.get_user_groups db user_id in group_infos db1 records

-- The loop over the members: the sender is skipped, and so is who has no session.
unfoldable pub send_members : Str → Str → List Str → Server → Server
send_members bytes sender_id [] w = w
send_members bytes sender_id (member_id ∷ ms) w = send_members bytes sender_id ms (
    if member_id == sender_id
    then w
    else elim (find_session w member_id) [ none ↦ w | some h ↦ send_raw h bytes w ])

module _ (q : Qt) where
  unfoldable pub broadcast_to_group : Str → Str → Packet → Server → Server
  unfolding send_members
  broadcast_to_group group_id sender_id pkt w =
      let (members, db1) = Database.get_group_members w.db group_id in
      send_members (serialize q pkt) sender_id members (record w { db = db1 })
