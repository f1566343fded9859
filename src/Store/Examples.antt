-- ===== src/Store/Examples.antt =====
-- A small store of messages and settings.
use nullchat.Base.{ℕ, List, ◌≡◌, refl, ◌==◌, Str-discrete, true, false, [], ◌∷◌, ◌++◌, any, arith}
use nullchat.Base.Int.{pos, negsuc}
use nullchat.Message.{ChatMessage}
use nullchat.Store.{MessageStore, save_message, load_messages}
use nullchat.Store.Load.{load_messages-save_message_beyond}
use nullchat.Store.Refinement.{Write, saves, clears, sets, write_all, agree_all, view}
use nullchat.Store.Restart.{File, Run, new_store, use_all, view-use_all}

abbrev in_group : ℕ → ℕ → ℕ → ChatMessage
in_group id g time = record {
  id = id ∷ [];
  sender_id = 9 ∷ [];
  sender_name = [];
  content = [];
  group_id = g ∷ [];
  recipient_id = [];
  encrypted = false;
  timestamp = pos time;
}

abbrev store : MessageStore
store = record {
  opened = true;
  messages = in_group 1 7 30 ∷ in_group 2 8 20 ∷ in_group 3 7 10 ∷ [];
  settings = record { key = 1 ∷ []; value = 2 ∷ [] } ∷ [];
}

new_id : any (λ m. m.id == 4 ∷ []) store.messages ≡ false
unfolding Str-discrete
new_id = refl

load_messages-save_message_beyond_example :
    (load_messages (7 ∷ []) (pos 2) (save_message (in_group 4 7 40) store)
      ≡ load_messages (7 ∷ []) (pos 2) store)
    × (any
          (λ m. m.id == 4 ∷ [])
          (load_messages (7 ∷ []) (negsuc 0) (save_message (in_group 4 7 40) store))
        ≡ true)
unfolding Str-discrete
load_messages-save_message_beyond_example =
    load_messages-save_message_beyond (in_group 4 7 40) 2 store refl new_id
      (omega arith, (omega arith, tt)) (omega arith)

abbrev writes : List Write
writes = saves (in_group 2 7 50) ∷ clears (8 ∷ []) ∷ sets (1 ∷ []) (6 ∷ []) ∷ []

abbrev file : File
file = record { messages = store.messages; settings = store.settings }

-- The second run could not open the file.
abbrev runs : List Run
runs =
    record { opens = true; writes = writes }
    ∷ record { opens = false; writes = clears (7 ∷ []) ∷ [] }
    ∷ []

view-use_all_example :
    view (write_all (clears (8 ∷ []) ∷ []) (new_store true (use_all runs file)))
    ≡ agree_all (writes ++ clears (8 ∷ []) ∷ []) (view (new_store true file))
unfolding Str-discrete
view-use_all_example = view-use_all runs (clears (8 ∷ []) ∷ []) file (refl, (refl, (refl, tt)))
