-- ===== src/Store/Restart.antt =====
-- src/client/store/MessageStore.cpp: the constructor and the destructor, and what one run of the
-- client leaves in the database's file for the next.
use nullchat.Base.{
  ◌≡◌, refl, sym, ap, ◌∙◌, Bool, true, false, List, [], ◌∷◌, ◌++◌, Distinct, if◌then◌else◌,
  Bool-cases, inl, inr, arith,
}
use nullchat.Message.{ChatMessage}
use nullchat.Store.{MessageStore, Setting, save_message, clear_group, save_blob}
use nullchat.Store.Refinement.{
  Write, saves, clears, sets, write, write_all, agree_all, view, same_id, view-write_all,
}

-- The tables; those of a new file are empty.
pub record File : Type 0 where
  pub messages : List ChatMessage
  pub settings : List Setting

-- `opens` says whether SQLite opens the file. `ensureTable` leaves tables that are there.
unfoldable pub new_store : Bool → File → MessageStore
new_store opens f = record {
  opened = opens;
  messages = if opens then f.messages else [];
  settings = if opens then f.settings else [];
}

unfoldable pub delete_store : MessageStore → File → File
delete_store s f = if s.opened then record { messages = s.messages; settings = s.settings } else f

-- A run of the client: whether it could open the file, and what it has written.
pub record Run : Type 0 where
  pub opens : Bool
  pub writes : List Write

unfoldable pub use_file : Run → File → File
use_file r f = delete_store (write_all r.writes (new_store r.opens f)) f

unfoldable pub use_all : List Run → File → File
unfolding use_file
use_all [] f = f
use_all (r ∷ rs) f = use_all rs (use_file r f)

-- What the runs that have opened the file have written.
abbrev pub written : List Run → List Write
written [] = []
written (r ∷ rs) = if r.opens then r.writes ++ written rs else written rs

write_unopened : (w : Write) (s : MessageStore) → s.opened ≡ false → write w s ≡ s
unfolding write save_message clear_group save_blob
write_unopened (saves msg) s shut = rw shut refl
write_unopened (clears group_id) s shut = rw shut refl
write_unopened (sets key value) s shut = rw shut refl

write_all_unopened : (ws : List Write) (s : MessageStore) → s.opened ≡ false → write_all ws s ≡ s
unfolding write_all
write_all_unopened [] s shut = refl
write_all_unopened (w ∷ ws) s shut =
    ap (write_all ws) (write_unopened w s shut) ∙ write_all_unopened ws s shut

opened-write_all : (ws : List Write) (s : MessageStore) → (write_all ws s).opened ≡ s.opened
unfolding write_all write save_message clear_group save_blob
opened-write_all [] s = refl
opened-write_all (saves msg ∷ ws) s = opened-write_all ws (save_message msg s) ∙ ground arith
opened-write_all (clears group_id ∷ ws) s =
    opened-write_all ws (clear_group group_id s) ∙ ground arith
opened-write_all (sets key value ∷ ws) s =
    opened-write_all ws (save_blob key value s) ∙ ground arith

write_all-append :
    (us ws : List Write) (s : MessageStore) → write_all (us ++ ws) s ≡ write_all ws (write_all us s)
unfolding write_all
write_all-append [] ws s = refl
write_all-append (u ∷ us) ws s = write_all-append us ws (write u s)

-- A file that an opened store has left is opened as that store.
pub new_store-delete_store :
    (s : MessageStore) (f : File) → s.opened ≡ true → new_store true (delete_store s f) ≡ s
unfolding new_store delete_store
new_store-delete_store s f opened = rw opened refl

new_store-use_file :
    (r : Run) (f : File)
    → new_store true (use_file r f)
      ≡ (if r.opens then write_all r.writes (new_store true f) else new_store true f)
unfolding use_file new_store delete_store
new_store-use_file r f = elim (Bool-cases r.opens) [
  | inl opens ↦ rw opens (
      new_store-delete_store (write_all r.writes (new_store true f)) f
        (opened-write_all r.writes (new_store true f)))
  | inr shut ↦ rw shut (
      ap (λ s. new_store true (delete_store s f))
        (write_all_unopened r.writes (new_store false f) refl))
]

-- The next store is the one that would have done all writes itself.
new_store-use_all :
    (rs : List Run) (f : File)
    → new_store true (use_all rs f) ≡ write_all (written rs) (new_store true f)
unfolding use_all write_all
new_store-use_all [] f = refl
new_store-use_all (r ∷ rs) f =
    new_store-use_all rs (use_file r f)
    ∙ ap (write_all (written rs)) (new_store-use_file r f)
    ∙ elim (Bool-cases r.opens) [
      | inl opens ↦ rw opens (sym (write_all-append r.writes (written rs) (new_store true f)))
      | inr shut ↦ rw shut refl
    ]

-- However often the client has been started, with or without success at opening the file, whose
-- messages have different ids at first, and whatever each run has written: what a store that opens
-- now holds after some writes is what the contract says for the writes of all runs that could
-- open the file, in their order, and these writes.
pub view-use_all :
    (rs : List Run) (ws : List Write) (f : File)
    → Distinct same_id f.messages
    → view (write_all ws (new_store true (use_all rs f)))
      ≡ agree_all (written rs ++ ws) (view (new_store true f))
unfolding new_store
view-use_all rs ws f d =
    ap (λ s. view (write_all ws s)) (new_store-use_all rs f)
    ∙ ap view (sym (write_all-append (written rs) ws (new_store true f)))
    ∙ view-write_all (written rs ++ ws) (new_store true f) (record { opened = refl; unique = d })
