-- ===== src/Database/Invariant.antt =====
-- The constraints of `createTables` under the calls of the database.
use nullchat.Base.{
  suc, ◌≡◌, refl, Str, ◌==◌, Bool, false, not, none, List, [], ◌∷◌, ◌++◌, any, filter, arith,
  Distinct, Distinct-append_one, Distinct-filter,
}
use nullchat.Qt.{Qt}
use nullchat.Crypto.{OpenSsl, sha256}
use nullchat.Database.{
  Database, UserRecord, GroupRecord, MemberRecord, spend, same_member, add_member, create_group,
  register_user, login_user, store_message, get_group_members, get_user_groups, get_public_key,
}

abbrev same_id : UserRecord → UserRecord → Bool
same_id a b = b.id == a.id

abbrev same_username : UserRecord → UserRecord → Bool
same_username a b = b.username == a.username

abbrev same_group : GroupRecord → GroupRecord → Bool
same_group a b = b.id == a.id

-- PRIMARY KEY and UNIQUE of the three tables.
pub record IsValid (db : Database) : Type 0 where
  pub ids : Distinct same_id db.users
  pub usernames : Distinct same_username db.users
  pub group_ids : Distinct same_group db.groups
  pub member_keys : Distinct same_member db.members

-- A call of the database's interface.
pub data Call : Type 0 where
  registers logins : Str → Str → Call
  creates_group adds_member : Str → Str → Str → Call
  lists_members lists_groups gets_key : Str → Call
  stores : Str → Str → Str → Bool → Call

module _ (q : Qt) (ssl : OpenSsl) where
  pub perform : Database → Call → Database
  perform db (registers username password) = (register_user q ssl db username password).2
  perform db (logins username password) = (login_user ssl db username password).2
  perform db (creates_group name owner_id key) = (create_group q db name owner_id key).1
  perform db (adds_member group_id user_id key) = (add_member db group_id user_id key).1
  perform db (lists_members group_id) = (get_group_members db group_id).1
  perform db (lists_groups user_id) = (get_user_groups db user_id).1
  perform db (gets_key user_id) = (get_public_key db user_id).1
  perform db (stores sender_id group_id content encrypted) =
      store_message db sender_id group_id content encrypted

  pub perform_all : Database → List Call → Database
  perform_all db [] = db
  perform_all db (c ∷ cs) = perform_all (perform db c) cs

-- The replaced row is gone before the new one comes.
fresh_row :
    (row : MemberRecord) (ms : List MemberRecord)
    → any (same_member row) (filter (λ m. not (same_member m row)) ms) ≡ false
fresh_row row [] = refl
fresh_row row (m ∷ ms) = ground (arith, fresh_row row ms)

add_member-IsValid :
    (db : Database) (group_id user_id key : Str)
    → IsValid db
    → IsValid (add_member db group_id user_id key).1
unfolding add_member
add_member-IsValid db group_id user_id key v =
    let row : MemberRecord = record {
      user_id = user_id;
      group_id = group_id;
      encrypted_symmetric_key = key;
    } in
    let others = filter (λ m. not (same_member m row)) db.members in
    ground (
      arith,
      Distinct-append_one same_member (λ a b. ground arith) row others,
      fresh_row row db.members,
      Distinct-filter same_member (λ m. not (same_member m row)) db.members v.member_keys,
    )

create_group-IsValid :
    (q : Qt) (db : Database) (name owner_id key : Str)
    → IsValid db
    → IsValid (create_group q db name owner_id key).1
unfolding create_group
create_group-IsValid q db name owner_id key v =
    let id = q.uuid db.uuids in
    let row : GroupRecord = record { id = id; name = name; owner_id = owner_id } in
    let drawn : Database = record db { uuids = suc db.uuids } in
    let stored : Database = record (spend drawn) { groups = db.groups ++ row ∷ [] } in
    ground (
      arith,
      Distinct-append_one same_group (λ a b. ground arith) row db.groups,
      add_member-IsValid stored id owner_id key,
    )

register_user-IsValid :
    (q : Qt) (ssl : OpenSsl) (db : Database) (username password : Str)
    → IsValid db
    → IsValid (register_user q ssl db username password).2
unfolding register_user
register_user-IsValid q ssl db username password v =
    let row : UserRecord = record {
      id = q.uuid db.uuids;
      username = username;
      password_hash = sha256 ssl password;
      public_key = none;
    } in
    ground (
      arith,
      Distinct-append_one same_id (λ a b. ground arith) row db.users,
      Distinct-append_one same_username (λ a b. ground arith) row db.users,
    )

perform-IsValid :
    (q : Qt) (ssl : OpenSsl) (db : Database) (c : Call) → IsValid db → IsValid (perform q ssl db c)
unfolding perform login_user get_group_members get_user_groups get_public_key store_message
perform-IsValid q ssl db (registers username password) v =
    register_user-IsValid q ssl db username password v
perform-IsValid q ssl db (creates_group name owner_id key) v =
    create_group-IsValid q db name owner_id key v
perform-IsValid q ssl db (adds_member group_id user_id key) v =
    add_member-IsValid db group_id user_id key v
perform-IsValid q ssl db c v = ground arith

-- The constraints of the tables survive every sequence of calls, whichever statements fail: user
-- ids, user names and group ids stay distinct, and a group has a member once.
pub perform_all-IsValid :
    (q : Qt) (ssl : OpenSsl) (db : Database) (cs : List Call)
    → IsValid db
    → IsValid (perform_all q ssl db cs)
unfolding perform_all
perform_all-IsValid q ssl db [] v = v
perform_all-IsValid q ssl db (c ∷ cs) v =
    perform_all-IsValid q ssl (perform q ssl db c) cs (perform-IsValid q ssl db c v)
