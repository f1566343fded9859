-- ===== src/Store/Load.antt =====
-- What `loadMessages` returns.
use nullchat.Base.{
  ℕ, zero, suc, ◌≤◌, ◌≡◌, refl, ap, ◌∙◌, filter-append, take-append_left, Str, ◌==◌, ◌&&◌, ◌||◌,
  Bool, true, false, not, List, [], ◌∷◌, ◌++◌, All, any, any-append, filter, length, take, arith,
  inl, inr, Bool-cases,
}
use nullchat.Base.Int.{ℤ, pos, negsuc, ◌≤ℤ◌}
use nullchat.Message.{ChatMessage}
use nullchat.Store.{
  MessageStore, row_of, save_message, insert_by_time, order_by_time, limited, load_messages,
}

-- Each message is no younger than those behind it.
abbrev pub Ascending : List ChatMessage → Type 0
Ascending [] = Unit {0}
Ascending (m ∷ ms) = All (λ n. m.timestamp ≤ℤ n.timestamp) ms × Ascending ms

All-insert_by_time :
    (t : ℤ) (m : ChatMessage) (ms : List ChatMessage)
    → t ≤ℤ m.timestamp
    → All (λ n. t ≤ℤ n.timestamp) ms
    → All (λ n. t ≤ℤ n.timestamp) (insert_by_time m ms)
unfolding insert_by_time
All-insert_by_time t m [] h all = (h, tt)
All-insert_by_time t m (n ∷ ns) h all = ground (arith, All-insert_by_time t m ns)

All-later :
    (t u : ℤ) (ms : List ChatMessage)
    → t ≤ℤ u
    → All (λ n. u ≤ℤ n.timestamp) ms
    → All (λ n. t ≤ℤ n.timestamp) ms
All-later t u [] h all = tt
All-later t u (m ∷ ms) h all = ground (arith, All-later t u ms)

insert_by_time-Ascending :
    (m : ChatMessage) (ms : List ChatMessage) → Ascending ms → Ascending (insert_by_time m ms)
unfolding insert_by_time
insert_by_time-Ascending m [] asc = (tt, tt)
insert_by_time-Ascending m (n ∷ ns) asc = ground (
  arith,
  insert_by_time-Ascending m ns,
  All-later m.timestamp n.timestamp ns,
  All-insert_by_time n.timestamp m ns,
)

order_by_time-Ascending : (ms : List ChatMessage) → Ascending (order_by_time ms)
unfolding order_by_time
order_by_time-Ascending [] = tt
order_by_time-Ascending (m ∷ ms) =
    insert_by_time-Ascending m (order_by_time ms) (order_by_time-Ascending ms)

All-take {ℓ} :
    (P : ChatMessage → Type ℓ) (n : ℕ) (ms : List ChatMessage) → All P ms → All P (take n ms)
All-take P zero ms all = tt
All-take P (suc n) [] all = tt
All-take P (suc n) (m ∷ ms) all = (all.0, All-take P n ms all.1)

take-Ascending : (n : ℕ) (ms : List ChatMessage) → Ascending ms → Ascending (take n ms)
take-Ascending zero ms asc = tt
take-Ascending (suc n) [] asc = tt
take-Ascending (suc n) (m ∷ ms) asc =
    (All-take (λ n. m.timestamp ≤ℤ n.timestamp) n ms asc.0, take-Ascending n ms asc.1)

limited-Ascending : (z : ℤ) (ms : List ChatMessage) → Ascending ms → Ascending (limited z ms)
unfolding limited
limited-Ascending (pos n) ms asc = take-Ascending n ms asc
limited-Ascending _ ms asc = asc

any-insert_by_time :
    (p : ChatMessage → Bool) (m : ChatMessage) (ms : List ChatMessage)
    → any p (insert_by_time m ms) ≡ (p m || any p ms)
unfolding insert_by_time
any-insert_by_time p m [] = refl
any-insert_by_time p m (n ∷ ns) = ground (arith, any-insert_by_time p m ns)

any-order_by_time :
    (p : ChatMessage → Bool) (ms : List ChatMessage) → any p (order_by_time ms) ≡ any p ms
unfolding order_by_time
any-order_by_time p [] = refl
any-order_by_time p (m ∷ ms) =
    ground (arith, any-insert_by_time p m (order_by_time ms), any-order_by_time p ms)

-- `loadMessages` returns messages by ascending time, whatever the limit.
pub load_messages-Ascending :
    (group_id : Str) (limit : ℤ) (s : MessageStore) → Ascending (load_messages group_id limit s)
unfolding load_messages
load_messages-Ascending group_id limit s = elim (Bool-cases s.opened) [
  | inl on ↦
      let rows = filter (λ m. m.group_id == group_id) s.messages in
      rw on (limited-Ascending limit (order_by_time rows) (order_by_time-Ascending rows))
  | inr off ↦ rw off tt
]

any-filter_group :
    (p : ChatMessage → Bool) (g : Str) (ms : List ChatMessage)
    → any p (filter (λ m. m.group_id == g) ms) ≡ any (λ m. m.group_id == g && p m) ms
any-filter_group p g [] = refl
any-filter_group p g (m ∷ ms) = ground (arith, any-filter_group p g ms)

-- Without a limit, `loadMessages` returns the messages of the group and no others.
pub any-load_messages :
    (p : ChatMessage → Bool) (g : Str) (k : ℕ) (s : MessageStore)
    → s.opened ≡ true
    → any p (load_messages g (negsuc k) s) ≡ any (λ m. m.group_id == g && p m) s.messages
unfolding load_messages limited
any-load_messages p g k s on =
    let rows = filter (λ m. m.group_id == g) s.messages in
    rw on (any-order_by_time p rows ∙ any-filter_group p g s.messages)

insert_by_time-append :
    (x m : ChatMessage) (ms : List ChatMessage)
    → x.timestamp ≤ℤ m.timestamp
    → insert_by_time x (ms ++ m ∷ []) ≡ insert_by_time x ms ++ m ∷ []
unfolding insert_by_time
insert_by_time-append x m [] h = ground arith
insert_by_time-append x m (n ∷ ns) h = ground (arith, insert_by_time-append x m ns h)

order_by_time-append :
    (m : ChatMessage) (ms : List ChatMessage)
    → All (λ n. n.timestamp ≤ℤ m.timestamp) ms
    → order_by_time (ms ++ m ∷ []) ≡ order_by_time ms ++ m ∷ []
unfolding order_by_time
order_by_time-append m [] all = refl
order_by_time-append m (x ∷ ms) all =
    rw (order_by_time-append m ms all.1) (insert_by_time-append x m (order_by_time ms) all.0)

length-insert_by_time :
    (m : ChatMessage) (ms : List ChatMessage) → length (insert_by_time m ms) ≡ suc (length ms)
unfolding insert_by_time
length-insert_by_time m [] = refl
length-insert_by_time m (n ∷ ns) = ground (arith, length-insert_by_time m ns)

length-order_by_time : (ms : List ChatMessage) → length (order_by_time ms) ≡ length ms
unfolding order_by_time
length-order_by_time [] = refl
length-order_by_time (m ∷ ms) =
    length-insert_by_time m (order_by_time ms) ∙ ap suc (length-order_by_time ms)

pub filter_absent :
    (id : Str) (ms : List ChatMessage)
    → any (λ m. m.id == id) ms ≡ false
    → filter (λ m. not (m.id == id)) ms ≡ ms
filter_absent id [] h = refl
filter_absent id (m ∷ ms) h = ground (arith, filter_absent id ms)

-- The limit keeps the oldest messages. Once a group of an opened store has as many messages as the
-- limit, a message with a new id and no older than these is saved, as a call without a limit shows,
-- but with the limit `loadMessages` returns what it returned before.
pub load_messages-save_message_beyond :
    (msg : ChatMessage) (n : ℕ) (s : MessageStore)
    → let rows = filter (λ m. m.group_id == msg.group_id) s.messages in
      s.opened ≡ true
      → any (λ m. m.id == msg.id) s.messages ≡ false
      → All (λ m. m.timestamp ≤ℤ msg.timestamp) rows
      → n ≤ length rows
      → (load_messages msg.group_id (pos n) (save_message msg s)
          ≡ load_messages msg.group_id (pos n) s)
        × (any (λ m. m.id == msg.id) (load_messages msg.group_id (negsuc 0) (save_message msg s))
            ≡ true)
unfolding load_messages save_message limited
load_messages-save_message_beyond msg n s on new newest full =
    let rows = filter (λ m. m.group_id == msg.group_id) s.messages in
    let more = order_by_time-append (row_of msg) rows newest in
    let few : n ≤ length (order_by_time rows) = rw (length-order_by_time rows) full in
    let split = filter-append (λ m. m.group_id == msg.group_id) s.messages (row_of msg ∷ []) in
    let grown : filter (λ m. m.group_id == msg.group_id) (s.messages ++ row_of msg ∷ [])
        ≡ rows ++ row_of msg ∷ [] =
      split ∙ ground arith in
    rw (on, filter_absent msg.id s.messages new, grown, more)
      (
        take-append_left n (order_by_time rows) (row_of msg ∷ []) few,
        any-append (λ m. m.id == msg.id) (order_by_time rows) (row_of msg ∷ []) ∙ ground arith,
      )
