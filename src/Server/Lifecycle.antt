-- ===== src/Server/Lifecycle.antt =====
-- src/server/Server.cpp: `start` and `stop`. What the files and the port allow is an argument. The
-- sessions that have been deleted are remembered, because deleting one twice is undefined.
use nullchat.Base.{
  ℕ, ◌≡◌, refl, ap, ◌∙◌, Bool, true, false, not, ◌&&◌, ◌||◌, List, [], ◌∷◌, ◌++◌, any, eqb,
  if◌then◌else◌, arith, Bool-cases, inl, inr,
}
use nullchat.Base.Map.{Map}
use nullchat.Database.Open.{open_database, create_tables, all_run_lem, first_fault}
use nullchat.Server.State.{Server}

-- `own_certificate` is a configuration with server.crt and server.key.
pub data Tls : Type 0 where
  own_certificate default_configuration : Tls

pub data LifeSignal : Type 0 where
  started stopped : LifeSignal

-- Whether SQLite opens the database's file, the two files exist, and the port can be listened on.
pub record Surroundings : Type 0 where
  pub file_opens : Bool
  pub cert_exists : Bool
  pub key_exists : Bool
  pub listens : Bool

pub record Life : Type 0 where
  pub server : Server
  pub database_open : Bool
  pub listening : Bool
  pub tls : Tls
  pub signals : List LifeSignal
  pub deleted : List ℕ
  pub undefined : Bool

unfoldable pub start : Surroundings → Life → Bool × Life
unfolding open_database
start s l =
    let (done, is_open, db) = open_database s.file_opens l.server.db in
    let opened = record l { database_open = is_open; server = record l.server { db = db } } in
    let tls = if s.cert_exists && s.key_exists then own_certificate else default_configuration in
    let configured = record opened { tls = tls } in
    if not done
    then (false, opened)
    else if not s.listens
    then (false, configured)
    else (true, record configured { listening = true; signals = l.signals ++ started ∷ [] })

unfoldable pub delete_session : ℕ → Life → Life
delete_session h l =
    if any (eqb h) l.deleted
    then record l { undefined = true }
    else record l { deleted = h ∷ l.deleted }

-- The loop over `sessions_`.
unfoldable pub delete_sessions : Map ℕ → Life → Life
unfolding delete_session
delete_sessions [] l = l
delete_sessions ((user_id, h) ∷ sessions) l = delete_sessions sessions (delete_session h l)

unfoldable pub stop : Life → Life
unfolding delete_sessions
stop l =
    let cleared = delete_sessions l.server.registry (record l { listening = false }) in
    record cleared {
      server = record cleared.server { registry = [] };
      database_open = false;
      signals = cleared.signals ++ stopped ∷ [];
    }

-- Whether no session stands under two user ids, and whether none of them has been deleted.
abbrev pub distinct : List ℕ → Bool
distinct [] = true
distinct (h ∷ hs) = not (any (eqb h) hs) && distinct hs

abbrev pub fresh : List ℕ → List ℕ → Bool
fresh deleted [] = true
fresh deleted (h ∷ hs) = not (any (eqb h) deleted) && fresh deleted hs

abbrev pub sessions_of : Map ℕ → List ℕ
sessions_of [] = []
sessions_of ((user_id, h) ∷ sessions) = h ∷ sessions_of sessions

fresh_cons :
    (h : ℕ) (deleted hs : List ℕ)
    → fresh (h ∷ deleted) hs ≡ (not (any (eqb h) hs) && fresh deleted hs)
fresh_cons h deleted [] = refl
fresh_cons h deleted (i ∷ hs) = ground (arith, fresh_cons h deleted hs)

delete_sessions_lem :
    (sessions : Map ℕ) (l : Life)
    → (delete_sessions sessions l).undefined ≡ (
        l.undefined
        || not (distinct (sessions_of sessions) && fresh l.deleted (sessions_of sessions)))
unfolding delete_sessions delete_session
delete_sessions_lem [] l = ground arith
delete_sessions_lem ((user_id, h) ∷ sessions) l =
    let rest = delete_sessions_lem sessions (delete_session h l) in
    let grown = fresh_cons h l.deleted (sessions_of sessions) in
    elim (Bool-cases (any (eqb h) l.deleted)) [
      | inl twice ↦ ground (arith, rest)
      | inr once ↦ ground (arith, rest, grown)
    ]

fresh-nil : (hs : List ℕ) → fresh [] hs ≡ true
fresh-nil [] = refl
fresh-nil (h ∷ hs) = fresh-nil hs

listening-delete_sessions :
    (sessions : Map ℕ) (l : Life) → (delete_sessions sessions l).listening ≡ l.listening
unfolding delete_sessions delete_session
listening-delete_sessions [] l = refl
listening-delete_sessions ((user_id, h) ∷ sessions) l =
    listening-delete_sessions sessions (delete_session h l)
    ∙ elim (Bool-cases (any (eqb h) l.deleted)) [
      | inl twice ↦ rw twice refl
      | inr once ↦ rw once refl
    ]

deleted-delete_sessions :
    (h : ℕ) (sessions : Map ℕ) (l : Life)
    → any (eqb h) (delete_sessions sessions l).deleted
      ≡ (any (eqb h) (sessions_of sessions) || any (eqb h) l.deleted)
unfolding delete_sessions delete_session
deleted-delete_sessions h [] l = refl
deleted-delete_sessions h ((user_id, i) ∷ sessions) l =
    let rest = deleted-delete_sessions h sessions (delete_session i l) in
    elim (Bool-cases (any (eqb i) l.deleted)) [
      | inl twice ↦ ground (arith, rest)
      | inr once ↦ ground (arith, rest)
    ]

-- After `stop` nobody is registered, and the server neither listens nor has its database open. Where
-- no session has been deleted before, the sessions that are deleted are those of the registry and no
-- others, so that a session which has not logged in, or which is no longer found, is left; and one is
-- deleted twice, which is undefined, if and only if it is registered under two user ids.
pub stop_lem :
    (l : Life)
    → l.deleted ≡ []
    → l.undefined ≡ false
    → ((stop l).server.registry ≡ [])
      × ((stop l).listening ≡ false)
      × ((stop l).database_open ≡ false)
      × ((h : ℕ) → any (eqb h) (stop l).deleted ≡ any (eqb h) (sessions_of l.server.registry))
      × ((stop l).undefined ≡ not (distinct (sessions_of l.server.registry)))
unfolding stop
stop_lem l none' sound =
    let closed = record l { listening = false } in
    let hs = sessions_of l.server.registry in
    let deletes = delete_sessions_lem l.server.registry closed in
    let all_fresh : fresh l.deleted hs ≡ true = ap (λ d. fresh d hs) none' ∙ fresh-nil hs in
    let gone = λ (h : ℕ). deleted-delete_sessions h l.server.registry closed in
    let before = λ (h : ℕ). ap (any (eqb h)) none' in
    (
      refl,
      listening-delete_sessions l.server.registry closed,
      refl,
      λ h. ground (arith, gone h, before h),
      ground (arith, deletes),
    )

-- `start` succeeds if and only if the file opens, each of the four tables is there or made, and the
-- port can be listened on; then it listens and has emitted `started`.
start_lem :
    (s : Surroundings) (l : Life)
    → let (done, l') = start s l in
      (done ≡ (s.file_opens && not (first_fault 4 l.server.db.faults) && s.listens))
      × (l'.listening ≡ (done || l.listening))
      × (l'.server.registry ≡ l.server.registry)
      × (l'.server.db.users ≡ l.server.db.users)
unfolding start open_database create_tables
start_lem s l = let runs = all_run_lem 4 l.server.db in ground (arith, runs)
