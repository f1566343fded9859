-- ===== src/Database/Users.antt =====
-- The user table under the calls of the database.
use nullchat.Base.{
  ◌≡◌, Str, ◌==◌, Bool, true, ◌&&◌, Option, some, find?, List, [], ◌∷◌, any, any-append, arith,
}
use nullchat.Qt.{Qt}
use nullchat.Crypto.{OpenSsl, sha256}
use nullchat.Database.{
  Database, UserRecord, add_member, create_group, register_user, login_user, get_group_members,
  get_user_groups,
}

-- There is an account of that id and name.
abbrev pub has_account : List UserRecord → Str → Str → Bool
has_account us id username = any (λ u. u.id == id && u.username == username) us

pub users-add_member : (db : Database) (g u key : Str) → (add_member db g u key).1.users ≡ db.users
unfolding add_member
users-add_member db g u key = ground arith

pub users-create_group :
    (q : Qt) (db : Database) (name owner key : Str)
    → (create_group q db name owner key).1.users ≡ db.users
unfolding create_group
users-create_group q db name owner key = grind (arith, users-add_member)

pub users-get_group_members :
    (db : Database) (g : Str) → (get_group_members db g).1.users ≡ db.users
unfolding get_group_members
users-get_group_members db g = ground arith

pub users-get_user_groups : (db : Database) (u : Str) → (get_user_groups db u).1.users ≡ db.users
unfolding get_user_groups
users-get_user_groups db u = ground arith

pub users-login_user :
    (ssl : OpenSsl) (db : Database) (username password : Str)
    → (login_user ssl db username password).2.users ≡ db.users
unfolding login_user
users-login_user ssl db username password = ground arith

found :
    (username hash : Str) (us : List UserRecord) (u : UserRecord)
    → find? (λ u. u.username == username && u.password_hash == hash) us ≡ some u
    → has_account us u.id username ≡ true
found username hash [] u e = cc
found username hash (x ∷ us) u e = ground (arith, found username hash us u)

-- An accepted login names an account that is in the table.
pub has_account-login_user :
    (ssl : OpenSsl) (db db' : Database) (username password id : Str)
    → login_user ssl db username password ≡ (true, id, db')
    → has_account db.users id username ≡ true
unfolding login_user
has_account-login_user ssl db db' username password id h = grind (arith, found)

-- A registration leaves each account in place.
pub has_account-register_user :
    (q : Qt) (ssl : OpenSsl) (db : Database) (username password id name : Str)
    → has_account db.users id name ≡ true
    → has_account (register_user q ssl db username password).2.users id name ≡ true
unfolding register_user
has_account-register_user q ssl db username password id name h =
    let row : UserRecord = record {
      id = q.uuid db.uuids;
      username = username;
      password_hash = sha256 ssl password;
      public_key = Option.none;
    } in
    ground (arith, any-append (λ u. u.id == id && u.username == name) db.users (row ∷ []))
