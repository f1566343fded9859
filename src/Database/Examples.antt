-- ===== src/Database/Examples.antt =====
-- A small database, and calls of it.
use nullchat.Base.{◌≡◌, refl, Str, ◌==◌, true, false, [], ◌∷◌, if◌then◌else◌}
use nullchat.Qt.Sample.{sample as qt}
use nullchat.Crypto.{sha256}
use nullchat.Crypto.Sample.{sample as ssl}
use nullchat.Database.{Database, ready, spend, add_member, register_user, login_user}
use nullchat.Database.Accounts.{login_user-register_user}
use nullchat.Database.Invariant.{
  IsValid, registers, adds_member, creates_group, perform_all, perform_all-IsValid,
}

abbrev empty : Database
empty = record { users = []; groups = []; members = []; messages = []; uuids = 0; faults = [] }

abbrev alice : Str
alice = b'a' ∷ []

abbrev bob : Str
bob = b'b' ∷ []

abbrev secret : Str
secret = 5 ∷ []

-- The database after a registration of Alice.
abbrev registered : Database
registered = (register_user qt ssl empty alice secret).2

alice_registers : register_user qt ssl empty alice secret ≡ (true, qt.uuid 0, registered)
unfolding register_user
alice_registers = refl

registered-ready : ready registered ≡ true
unfolding register_user
registered-ready = refl

abbrev one_group : Database
one_group = record empty {
  groups = record { id = 3 ∷ []; name = 4 ∷ []; owner_id = alice } ∷ [];
  members = record { user_id = alice; group_id = 3 ∷ []; encrypted_symmetric_key = [] } ∷ [];
}

empty-IsValid : IsValid empty
empty-IsValid = record { ids = tt; usernames = tt; group_ids = tt; member_keys = tt }

perform_all-IsValid_example : IsValid (
    perform_all qt ssl empty (
      registers alice secret
      ∷ registers alice bob
      ∷ creates_group bob alice []
      ∷ adds_member bob bob []
      ∷ []))
perform_all-IsValid_example =
    perform_all-IsValid qt ssl empty
      (registers alice secret
        ∷ registers alice bob
        ∷ creates_group bob alice []
        ∷ adds_member bob bob []
        ∷ [])
      empty-IsValid

login_user-register_user_example : login_user ssl registered alice bob ≡ (
    if sha256 ssl secret == sha256 ssl bob
    then (true, qt.uuid 0, spend registered)
    else (false, [], spend registered))
login_user-register_user_example =
    login_user-register_user qt ssl empty registered alice secret (qt.uuid 0) bob alice_registers
      registered-ready

bob_joins : add_member one_group (3 ∷ []) bob [] ≡ (true, (add_member one_group (3 ∷ []) bob []).1)
unfolding add_member
bob_joins = refl

-- The second statement fails.
abbrev faulty : Database
faulty = record empty { faults = false ∷ true ∷ [] }
