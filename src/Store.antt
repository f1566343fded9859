-- ===== src/Store.antt =====
-- src/client/store/MessageStore.h and src/client/store/MessageStore.cpp. A table is the list of its
-- rows in the order in which they were written last: `INSERT OR REPLACE` deletes the row of the
-- same key and writes a new one. `opened` says that the constructor could open the database (`db_`
-- is not null); an opened database runs its statements.
pub mod Load
pub mod Contents
pub mod Refinement
pub mod Restart
mod Examples
use nullchat.Base.{
  Str, ◌==◌, Bool, not, none, some, List, [], ◌∷◌, ◌++◌, take, filter, find?, if◌then◌else◌,
}
use nullchat.Base.Int.{ℤ, pos, negsuc, leb_ℤ}
use nullchat.Message.{ChatMessage}

pub record Setting : Type 0 where
  pub key : Str
  pub value : Str

pub record MessageStore : Type 0 where
  pub opened : Bool
  pub messages : List ChatMessage
  pub settings : List Setting

-- The row of a message: `recipient_id` is no column.
abbrev pub row_of : ChatMessage → ChatMessage
row_of msg = record msg { recipient_id = [] }

unfoldable pub save_message : ChatMessage → MessageStore → MessageStore
save_message msg s =
    if s.opened
    then record s { messages = filter (λ m. not (m.id == msg.id)) s.messages ++ row_of msg ∷ [] }
    else s

-- `ORDER BY timestamp ASC`: a row comes behind the rows of the same time that were there before it.
unfoldable pub insert_by_time : ChatMessage → List ChatMessage → List ChatMessage
insert_by_time m [] = m ∷ []
insert_by_time m (n ∷ ns) =
    let rest = insert_by_time m ns in if leb_ℤ m.timestamp n.timestamp then m ∷ n ∷ ns else n ∷ rest

unfoldable pub order_by_time : List ChatMessage → List ChatMessage
unfolding insert_by_time
order_by_time [] = []
order_by_time (m ∷ ms) = insert_by_time m (order_by_time ms)

-- `LIMIT ?`, where a negative number is no limit.
unfoldable pub limited : ℤ → List ChatMessage → List ChatMessage
limited (pos n) ms = take n ms
limited (negsuc n) ms = ms

unfoldable pub load_messages : Str → ℤ → MessageStore → List ChatMessage
unfolding order_by_time limited
load_messages group_id limit s =
    if s.opened
    then limited limit (order_by_time (filter (λ m. m.group_id == group_id) s.messages))
    else []

unfoldable pub clear_group : Str → MessageStore → MessageStore
clear_group group_id s =
    if s.opened
    then record s { messages = filter (λ m. not (m.group_id == group_id)) s.messages }
    else s

unfoldable pub save_blob : Str → Str → MessageStore → MessageStore
save_blob key value s =
    if s.opened
    then record s {
      settings =
          filter (λ r. not (r.key == key)) s.settings ++ record { key = key; value = value } ∷ [];
    }
    else s

unfoldable pub load_blob : Str → MessageStore → Str
load_blob key s =
    if s.opened
    then elim (find? (λ r. r.key == key) s.settings) [ none ↦ [] | some r ↦ r.value ]
    else []
