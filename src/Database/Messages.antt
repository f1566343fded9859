-- ===== src/Database/Messages.antt =====
-- The message table under the calls of the server: `storeMessage` alone adds to it, and no handler
-- calls it.
use nullchat.Base.{◌≡◌, Str, arith}
use nullchat.Qt.{Qt}
use nullchat.Crypto.{OpenSsl}
use nullchat.Database.{
  Database, add_member, create_group, register_user, login_user, get_group_members, get_user_groups,
}

pub messages-add_member :
    (db : Database) (g u key : Str) → (add_member db g u key).1.messages ≡ db.messages
unfolding add_member
messages-add_member db g u key = ground arith

pub messages-create_group :
    (q : Qt) (db : Database) (name owner key : Str)
    → (create_group q db name owner key).1.messages ≡ db.messages
unfolding create_group
messages-create_group q db name owner key = grind (arith, messages-add_member)

pub messages-get_group_members :
    (db : Database) (g : Str) → (get_group_members db g).1.messages ≡ db.messages
unfolding get_group_members
messages-get_group_members db g = ground arith

pub messages-get_user_groups :
    (db : Database) (u : Str) → (get_user_groups db u).1.messages ≡ db.messages
unfolding get_user_groups
messages-get_user_groups db u = ground arith

pub messages-login_user :
    (ssl : OpenSsl) (db : Database) (username password : Str)
    → (login_user ssl db username password).2.messages ≡ db.messages
unfolding login_user
messages-login_user ssl db username password = ground arith

pub messages-register_user :
    (q : Qt) (ssl : OpenSsl) (db : Database) (username password : Str)
    → (register_user q ssl db username password).2.messages ≡ db.messages
unfolding register_user
messages-register_user q ssl db username password = ground arith
