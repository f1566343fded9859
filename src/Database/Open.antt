-- ===== src/Database/Open.antt =====
-- src/server/Database.cpp: `open` and `createTables`. The tables of a file that has them already
-- stay as they are, and `close` leaves them too.
use nullchat.Base.{
  ℕ, zero, suc, ◌≡◌, refl, Bool, true, false, not, ◌||◌, List, any, take, if◌then◌else◌, arith,
}
use nullchat.Database.{Database, ready, spend}

-- So many statements joined by `&&`: behind one that fails no other is run.
unfoldable pub all_run : ℕ → Database → Bool × Database
all_run zero db = (true, db)
all_run (suc n) db = let rest = all_run n (spend db) in if ready db then rest else (false, spend db)

unfoldable pub create_tables : Database → Bool × Database
create_tables db = all_run 4 db

-- What `open` returns, whether the connection is open then, and the database. `opens` says whether
-- SQLite opens the file.
unfoldable pub open_database : Bool → Database → Bool × Bool × Database
open_database opens db =
    if opens then (let (done, db') = create_tables db in (done, true, db')) else (false, false, db)

abbrev pub first_fault : ℕ → List Bool → Bool
first_fault n faults = any (λ fault. fault) (take n faults)

first_fault-suc :
    (n : ℕ) (db : Database)
    → first_fault (suc n) db.faults ≡ (not (ready db) || first_fault n (spend db).faults)
first_fault-suc zero db = ground arith
first_fault-suc (suc n) db = ground arith

-- The statements all run if and only if none of so many fails, and the rows stay.
pub all_run_lem :
    (n : ℕ) (db : Database)
    → ((all_run n db).0 ≡ not (first_fault n db.faults))
      × ((all_run n db).1.users ≡ db.users)
      × ((all_run n db).1.groups ≡ db.groups)
      × ((all_run n db).1.members ≡ db.members)
      × ((all_run n db).1.messages ≡ db.messages)
unfolding all_run
all_run_lem zero db = (refl, refl, refl, refl, refl)
all_run_lem (suc n) db =
    let rest = all_run_lem n (spend db) in
    let split = first_fault-suc n db in ground (arith, rest, split)
