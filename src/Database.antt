-- ===== src/Database.antt =====
-- src/server/Database.h and src/server/Database.cpp. A table is the list of its rows in the order
-- in which they were inserted; the constraints are those of `createTables`. The time columns are
-- left out.
pub mod Accounts
pub mod Membership
pub mod Invariant
pub mod Users
pub mod Messages
pub mod Open
mod Examples
use nullchat.Base.{
  ℕ, suc, Str, ◌==◌, Bool, true, false, not, ◌&&◌, Option, none, some, List, [], ◌∷◌, ◌++◌, map,
  any, filter, find?, if◌then◌else◌,
}
use nullchat.Qt.{Qt}
use nullchat.Crypto.{OpenSsl, sha256}

-- `public_key` may be NULL.
pub record UserRecord : Type 0 where
  pub id : Str
  pub username : Str
  pub password_hash : Str
  pub public_key : Option Str

pub record GroupRecord : Type 0 where
  pub id : Str
  pub name : Str
  pub owner_id : Str

pub record MemberRecord : Type 0 where
  pub user_id : Str
  pub group_id : Str
  pub encrypted_symmetric_key : Str

pub record StoredMessage : Type 0 where
  pub sender_id : Str
  pub group_id : Str
  pub content : Str
  pub encrypted : Bool

-- `faults` foretells, for each coming statement, whether SQLite fails to run it; past its end all
-- statements run. `uuids` counts the UUIDs that have been drawn.
pub record Database : Type 0 where
  pub users : List UserRecord
  pub groups : List GroupRecord
  pub members : List MemberRecord
  pub messages : List StoredMessage
  pub uuids : ℕ
  pub faults : List Bool

-- Whether the next statement runs, and the database behind it.
abbrev pub ready : Database → Bool
ready db = elim db.faults [ [] ↦ true | fault ∷ later ↦ not fault ]

abbrev pub spend : Database → Database
spend db = elim db.faults [ [] ↦ db | fault ∷ later ↦ record db { faults = later } ]

-- PRIMARY KEY (user_id, group_id)
abbrev pub same_member : MemberRecord → MemberRecord → Bool
same_member m n = m.user_id == n.user_id && m.group_id == n.group_id

-- The rows of `groups g JOIN group_members m ON g.id = m.group_id WHERE m.user_id = ?`
unfoldable pub join_groups : List MemberRecord → Str → List GroupRecord → List GroupRecord
join_groups ms user_id [] = []
join_groups ms user_id (g ∷ gs) =
    map (λ m. g) (filter (λ m. g.id == m.group_id && m.user_id == user_id) ms)
    ++ join_groups ms user_id gs

unfoldable pub add_member : Database → Str → Str → Str → Bool × Database
add_member db group_id user_id encrypted_key =
    let row : MemberRecord = record {
      user_id = user_id;
      group_id = group_id;
      encrypted_symmetric_key = encrypted_key;
    } in
    if ready db
    then (
      true,
      record (spend db) { members = filter (λ m. not (same_member m row)) db.members ++ row ∷ [] },
    )
    else (false, spend db)

unfoldable pub get_public_key : Database → Str → Str × Database
get_public_key db user_id =
    if ready db
    then elim (find? (λ u. u.id == user_id) db.users) [
      | none ↦ ([], spend db)
      | some u ↦ (elim u.public_key [ none ↦ [] | some key ↦ key ], spend db)
    ]
    else ([], spend db)

unfoldable pub get_group_members : Database → Str → List Str × Database
get_group_members db group_id =
    if ready db
    then (map (λ m. m.user_id) (filter (λ m. m.group_id == group_id) db.members), spend db)
    else ([], spend db)

unfoldable pub get_user_groups : Database → Str → List GroupRecord × Database
get_user_groups db user_id =
    if ready db then (join_groups db.members user_id db.groups, spend db) else ([], spend db)

unfoldable pub store_message : Database → Str → Str → Str → Bool → Database
store_message db sender_id group_id content encrypted =
    let row : StoredMessage = record {
      sender_id = sender_id;
      group_id = group_id;
      content = content;
      encrypted = encrypted;
    } in
    if ready db then record (spend db) { messages = db.messages ++ row ∷ [] } else spend db

module _ (q : Qt) where
  unfoldable pub create_group : Database → Str → Str → Str → Str × Database
  create_group db name owner_id encrypted_key =
      let id = q.uuid db.uuids in
      let drawn = record db { uuids = suc db.uuids } in
      let row : GroupRecord = record { id = id; name = name; owner_id = owner_id } in
      if ready drawn && not (any (λ g. g.id == id) db.groups)
      then (
        id,
        (add_member (record (spend drawn) { groups = db.groups ++ row ∷ [] }) id owner_id
            encrypted_key).1,
      )
      else ([], spend drawn)

module _ (q : Qt) (ssl : OpenSsl) where
  unfoldable pub register_user : Database → Str → Str → Bool × Str × Database
  register_user db username password =
      let id = q.uuid db.uuids in
      let hash = sha256 ssl password in
      let drawn = record db { uuids = suc db.uuids } in
      let row : UserRecord = record {
        id = id;
        username = username;
        password_hash = hash;
        public_key = none;
      } in
      if ready drawn
        && not (any (λ u. u.id == id) db.users)
        && not (any (λ u. u.username == username) db.users)
      then (true, id, record (spend drawn) { users = db.users ++ row ∷ [] })
      else (false, [], spend drawn)

module _ (ssl : OpenSsl) where
  unfoldable pub login_user : Database → Str → Str → Bool × Str × Database
  login_user db username password =
      let hash = sha256 ssl password in
      if ready db
      then elim (find? (λ u. u.username == username && u.password_hash == hash) db.users) [
        | none ↦ (false, [], spend db)
        | some u ↦ (true, u.id, spend db)
      ]
      else (false, [], spend db)
