-- ===== src/Server/Main.antt =====
-- src/server/main.cpp: the server as its constructor leaves it, and its start.
use nullchat.Base.{◌≡◌, false, not, ◌&&◌, [], if◌then◌else◌, arith, ℕ}
use nullchat.Database.{Database}
use nullchat.Database.Open.{open_database, create_tables, first_fault, all_run_lem}
use nullchat.Server.State.{initial}
use nullchat.Server.Lifecycle.{Life, Surroundings, default_configuration, start}

-- The constructor of `Server`; `file` is what the database's file holds.
abbrev pub new_life : Database → Life
new_life file = record {
  server = initial file;
  database_open = false;
  listening = false;
  tls = default_configuration;
  signals = [];
  deleted = [];
  undefined = false;
}

-- `exits` is what `main` returns before there are events, `executes` that it waits for them.
pub data Outcome : Type 0 where
  exits : ℕ → Outcome
  executes : Outcome

unfoldable pub main : Surroundings → Database → Outcome × Life
main s file =
    let (done, l) = start s (new_life file) in if done then (executes, l) else (exits 1, l)

-- The server waits for events if and only if the database opens with its tables and the port is free,
-- and exits with 1 otherwise. It then has no sessions and listens, and the users are those of the file.
main_lem :
    (s : Surroundings) (file : Database)
    → let (outcome, l) = main s file in
      (outcome ≡ (
        if s.file_opens && not (first_fault 4 file.faults) && s.listens then executes else exits 1))
      × (l.server ≡ initial l.server.db)
      × (l.server.db.users ≡ file.users)
      × (l.listening ≡ (s.file_opens && not (first_fault 4 file.faults) && s.listens))
unfolding main start open_database create_tables
main_lem s file = let runs = all_run_lem 4 file in ground (arith, runs)
