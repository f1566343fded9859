-- ===== src/Store/Refinement.antt =====
-- The message store against its contract: a message for each id, and a text for each setting.
use nullchat.Base.{
  ◌≡◌, refl, ap, ◌∙◌, Str, ◌==◌, Bool, true, false, not, Option, none, some, List, [], ◌∷◌, ◌++◌,
  filter, find?, any, Distinct, Distinct-filter, Distinct-append_one, if◌then◌else◌, arith,
}
use nullchat.Message.{ChatMessage}
use nullchat.Store.{MessageStore, row_of, save_message, clear_group, save_blob, load_blob}
use nullchat.Store.Contents.{load_blob-save_blob}

-- The calls that write.
pub data Write : Type 0 where
  saves : ChatMessage → Write
  clears : Str → Write
  sets : Str → Str → Write

unfoldable pub write : Write → MessageStore → MessageStore
write (saves msg) s = save_message msg s
write (clears group_id) s = clear_group group_id s
write (sets key value) s = save_blob key value s

unfoldable pub write_all : List Write → MessageStore → MessageStore
unfolding write
write_all [] s = s
write_all (w ∷ ws) s = write_all ws (write w s)

-- What a client of the store relies on.
pub record Contract : Type 0 where
  pub message : Str → Option ChatMessage
  pub setting : Str → Str

abbrev pub without_group : Str → Option ChatMessage → Option ChatMessage
without_group group_id none = none
without_group group_id (some m) = if m.group_id == group_id then none else some m

unfoldable pub agree : Write → Contract → Contract
agree (saves msg) c = record c {
  message = λ id. if msg.id == id then some (row_of msg) else c.message id;
}
agree (clears group_id) c = record c { message = λ id. without_group group_id (c.message id) }
agree (sets key value) c = record c { setting = λ k. if k == key then value else c.setting k }

unfoldable pub agree_all : List Write → Contract → Contract
unfolding agree
agree_all [] c = c
agree_all (w ∷ ws) c = agree_all ws (agree w c)

-- The contract that a store fulfils.
abbrev pub view : MessageStore → Contract
view s = record {
  message = λ id. find? (λ m. m.id == id) s.messages;
  setting = λ key. load_blob key s;
}

abbrev pub same_id : ChatMessage → ChatMessage → Bool
same_id m n = m.id == n.id

-- The database is open, and the key of the table is unique.
pub record IsStore (s : MessageStore) : Type 0 where
  pub opened : s.opened ≡ true
  pub unique : Distinct same_id s.messages

absent :
    (id : Str) (msg : ChatMessage) (ms : List ChatMessage)
    → id ≡ msg.id
    → any (λ m. id == m.id) (filter (λ m. not (m.id == msg.id)) ms) ≡ false
absent id msg [] e = refl
absent id msg (m ∷ ms) e = ground (arith, absent id msg ms)

pub write-IsStore : (w : Write) (s : MessageStore) → IsStore s → IsStore (write w s)
unfolding write save_message clear_group save_blob
write-IsStore (saves msg) s v =
    let kept = Distinct-filter same_id (λ m. not (m.id == msg.id)) s.messages v.unique in
    let fresh = absent msg.id msg s.messages refl in
    simp v.opened (record {
      opened = refl;
      unique =
          Distinct-append_one same_id (λ m n. ground arith) (row_of msg)
            (filter (λ m. not (m.id == msg.id)) s.messages) fresh kept;
    })
write-IsStore (clears group_id) s v = simp v.opened (record {
  opened = refl;
  unique = Distinct-filter same_id (λ m. not (m.group_id == group_id)) s.messages v.unique;
})
write-IsStore (sets key value) s v = simp v.opened (record { opened = refl; unique = v.unique })

find_saved :
    (id : Str) (msg : ChatMessage) (ms : List ChatMessage)
    → find? (λ m. m.id == id) (filter (λ m. not (m.id == msg.id)) ms ++ row_of msg ∷ [])
      ≡ (if msg.id == id then some (row_of msg) else find? (λ m. m.id == id) ms)
find_saved id msg [] = refl
find_saved id msg (m ∷ ms) = ground (arith, find_saved id msg ms)

find_other :
    (id : Str) (m : ChatMessage) (ms : List ChatMessage)
    → m.id ≡ id
    → any (same_id m) ms ≡ false
    → find? (λ n. n.id == id) ms ≡ none
find_other id m [] e h = refl
find_other id m (n ∷ ns) e h = ground (arith, find_other id m ns)

find_cleared :
    (id group_id : Str) (ms : List ChatMessage)
    → Distinct same_id ms
    → find? (λ m. m.id == id) (filter (λ m. not (m.group_id == group_id)) ms)
      ≡ without_group group_id (find? (λ m. m.id == id) ms)
find_cleared id group_id [] d = refl
find_cleared id group_id (m ∷ ms) d =
    ground (arith, find_cleared id group_id ms, find_other id m ms)

-- One call does to the contract what it should.
view-write : (w : Write) (s : MessageStore) → IsStore s → view (write w s) ≡ agree w (view s)
unfolding write agree save_message clear_group save_blob load_blob
view-write (saves msg) s v =
    let message : (id : Str)
        → (view (save_message msg s)).message id ≡ (agree (saves msg) (view s)).message id =
      λ id. ground (arith, v.opened, find_saved id msg s.messages) in
    let setting : (key : Str) → load_blob key (save_message msg s) ≡ load_blob key s =
      λ key. ground (arith, v.opened) in
    λ i. record { message = λ id. message id i; setting = λ key. setting key i }
view-write (clears group_id) s v =
    let message : (id : Str)
        → (view (clear_group group_id s)).message id
          ≡ (agree (clears group_id) (view s)).message id =
      λ id. ground (arith, v.opened, find_cleared id group_id s.messages v.unique) in
    let setting : (key : Str) → load_blob key (clear_group group_id s) ≡ load_blob key s =
      λ key. ground (arith, v.opened) in
    λ i. record { message = λ id. message id i; setting = λ key. setting key i }
view-write (sets k value) s v =
    let message : (id : Str) → (view (save_blob k value s)).message id ≡ (view s).message id =
      λ id. ground (arith, v.opened) in
    let setting : (key : Str)
        → load_blob key (save_blob k value s) ≡ (if key == k then value else load_blob key s) =
      λ key. load_blob-save_blob key k value s v.opened in
    λ i. record { message = λ id. message id i; setting = λ key. setting key i }

-- Whatever is written to an opened store with one row for each id, and in whatever order, each id has
-- the message that was saved under it last, unless the message's group has been cleared since, and
-- each setting its last value.
pub view-write_all :
    (ws : List Write) (s : MessageStore) → IsStore s → view (write_all ws s) ≡ agree_all ws (view s)
unfolding write_all agree_all
view-write_all [] s v = refl
view-write_all (w ∷ ws) s v =
    view-write_all ws (write w s) (write-IsStore w s v) ∙ ap (agree_all ws) (view-write w s v)
