-- ===== src/Database/Accounts.antt =====
-- `registerUser` and `loginUser` together.
use nullchat.Base.{
  suc, ◌≡◌, ◌≢◌, refl, ap, ◌∙◌, Str, ◌==◌, true, false, ◌&&◌, none, List, [], ◌∷◌, ◌++◌, any, find?,
  find?-append_none, if◌then◌else◌, arith, Bool-cases, inl, inr,
}
use nullchat.Qt.{Qt}
use nullchat.Crypto.{OpenSsl, IsOpenSsl, sha256}
use nullchat.Crypto.Digest.{sha256_lem}
use nullchat.Database.{Database, UserRecord, ready, spend, register_user, login_user}

-- A user name that no row has is in no row with any hash either.
any-and :
    (name hash : Str) (us : List UserRecord)
    → any (λ u. u.username == name) us ≡ false
    → any (λ u. u.username == name && u.password_hash == hash) us ≡ false
any-and name hash [] h = refl
any-and name hash (u ∷ us) h = ground (arith, any-and name hash us)

find?-append_other :
    (name hash : Str) (us : List UserRecord) (r : UserRecord)
    → name ≢ r.username
    → find? (λ u. u.username == name && u.password_hash == hash) (us ++ r ∷ [])
      ≡ find? (λ u. u.username == name && u.password_hash == hash) us
find?-append_other name hash [] r h = ground arith
find?-append_other name hash (u ∷ us) r h = ground (arith, find?-append_other name hash us r)

abbrev new_user : Str → Str → Str → UserRecord
new_user id username hash = record {
  id = id;
  username = username;
  password_hash = hash;
  public_key = none;
}

module _ (q : Qt) (ssl : OpenSsl) where
  -- A registration that succeeds found the name and the id free, and adds one row at the end.
  pub register_user-ok :
      (db db' : Database) (username password id : Str)
      → register_user q ssl db username password ≡ (true, id, db')
      → (any (λ u. u.username == username) db.users ≡ false)
        × (any (λ u. u.id == id) db.users ≡ false)
        × (db'.users ≡ db.users ++ new_user id username (sha256 ssl password) ∷ [])
        × (id ≡ q.uuid db.uuids)
  unfolding register_user
  register_user-ok db db' username password id h = ground arith

  -- Who registers can log in: after a registration that succeeded, a login with the same name
  -- gives the new id if the password has the registered hash, and is refused otherwise. The login's
  -- query must run.
  pub login_user-register_user :
      (db db' : Database) (username password id attempt : Str)
      → register_user q ssl db username password ≡ (true, id, db')
      → ready db' ≡ true
      → login_user ssl db' username attempt ≡ (
          if sha256 ssl password == sha256 ssl attempt
          then (true, id, spend db')
          else (false, [], spend db'))
  unfolding login_user
  login_user-register_user db db' username password id attempt h runs =
      let r = register_user-ok db db' username password id h in
      let hash = sha256 ssl attempt in
      let absent = any-and username hash db.users r.0 in
      let row = new_user id username (sha256 ssl password) in
      let hit =
        find?-append_none (λ u. u.username == username && u.password_hash == hash) db.users
          (row ∷ []) absent in
      ground (arith, ap (find? (λ u. u.username == username && u.password_hash == hash)) r.2, hit)

  -- A registration changes no other account: another name logs in, or fails to, as before.
  pub login_user-register_user_other :
      (db db' : Database) (username password id other attempt : Str)
      → register_user q ssl db username password ≡ (true, id, db')
      → other ≢ username
      → ready db ≡ true
      → ready db' ≡ true
      → ((login_user ssl db' other attempt).0 ≡ (login_user ssl db other attempt).0)
        × ((login_user ssl db' other attempt).1 ≡ (login_user ssl db other attempt).1)
  unfolding login_user
  login_user-register_user_other db db' username password id other attempt h ne before after =
      let r = register_user-ok db db' username password id h in
      let hash = sha256 ssl attempt in
      let row = new_user id username (sha256 ssl password) in
      ground (
        arith,
        ap (find? (λ u. u.username == other && u.password_hash == hash)) r.2,
        find?-append_other other hash db.users row ne,
      )

  -- A name that is taken is refused, and no table changes.
  pub register_user_taken :
      (db : Database) (username password : Str)
      → any (λ u. u.username == username) db.users ≡ true
      → register_user q ssl db username password
        ≡ (false, [], record (spend db) { uuids = suc db.uuids })
  unfolding register_user
  register_user_taken db username password h = ground arith

module _ (ssl : OpenSsl) (lawful : IsOpenSsl ssl) (q : Qt) where
  -- After a registration, another password opens the account only if SHA-256 gives it the same
  -- digest.
  pub login_user_wrong_password :
      (db db' : Database) (username password id attempt : Str)
      → register_user q ssl db username password ≡ (true, id, db')
      → ssl.digest password ≢ ssl.digest attempt
      → (login_user ssl db' username attempt).0 ≡ false
  unfolding login_user
  login_user_wrong_password db db' username password id attempt h ne =
      elim (Bool-cases (ready db')) [
        | inl runs ↦
            ap (λ r. r.0)
              (login_user-register_user q ssl db db' username password id attempt h runs)
            ∙ ground (arith, (sha256_lem ssl lawful password attempt).1)
        | inr stops ↦ ground arith
      ]
