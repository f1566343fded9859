-- ===== src/Ui/MainWindow/Ids.antt =====
-- Messages that come without an id, in the store.
use nullchat.Base.{
  ℕ, zero, suc, ◌+◌, ◌*◌, ◌-◌, ◌/◌, ◌%◌, ◌<◌, ltb, Bool-cases, inl, inr, ◌∙◌, ◌≡◌, Str, ◌==◌, true,
  not, List, [], ◌∷◌, ◌++◌, filter, filter-append, arith, refl,
}
use nullchat.Base.Int.{pos}
use nullchat.Message.{ChatMessage}
use nullchat.Store.{MessageStore, row_of, save_message}
use nullchat.Ui.MainWindow.{MainWindow, digits, to_string, with_id, on_group_message_received}

without :
    (id : Str) (ms : List ChatMessage)
    → filter (λ m. m.id == id) (filter (λ m. not (m.id == id)) ms) ≡ []
without id [] = refl
without id (m ∷ ms) = ground (arith, without id ms)

-- The rows of an id after a message with that id has been saved: this message alone.
saved_alone :
    (m : ChatMessage) (s : MessageStore)
    → s.opened ≡ true
    → filter (λ n. n.id == m.id) (save_message m s).messages ≡ row_of m ∷ []
unfolding save_message
saved_alone m s on = ground (
  arith,
  filter-append (λ n. n.id == m.id) (filter (λ n. not (n.id == m.id)) s.messages) (row_of m ∷ []),
  without m.id s.messages,
)

opened-save_message :
    (m : ChatMessage) (s : MessageStore) → s.opened ≡ true → (save_message m s).opened ≡ true
unfolding save_message
opened-save_message m s on = ground arith

with_id_same :
    (first second : ChatMessage)
    → first.id ≡ []
    → second.id ≡ []
    → first.sender_id ≡ second.sender_id
    → first.timestamp ≡ second.timestamp
    → (with_id first).id ≡ (with_id second).id
unfolding with_id
with_id_same first second e1 e2 sender time = ground arith

-- Of two group messages that come without an id, from one sender and with one time, an opened store
-- keeps the second alone under the id that the window gives to both, whatever the first one said.
pub on_group_message_received_replaces :
    (first second : ChatMessage) (w : MainWindow)
    → w.store.opened ≡ true
    → first.id ≡ []
    → second.id ≡ []
    → first.sender_id ≡ second.sender_id
    → first.timestamp ≡ second.timestamp
    → let w' = on_group_message_received second (on_group_message_received first w) in
      filter (λ m. m.id == (with_id first).id) w'.store.messages ≡ row_of (with_id second) ∷ []
unfolding on_group_message_received
on_group_message_received_replaces first second w on e1 e2 sender time =
    let once = save_message (with_id first) w.store in
    rw (with_id_same first second e1 e2 sender time)
      (saved_alone (with_id second) once (opened-save_message (with_id first) w.store on))

-- The decimal number that a text reads as.
abbrev pub number_of : ℕ → Str → ℕ
number_of acc [] = acc
number_of acc (c ∷ s) = number_of (10 * acc + (c - b'0')) s

number_of-append :
    (acc c : ℕ) (s : Str) → number_of acc (s ++ c ∷ []) ≡ 10 * number_of acc s + (c - b'0')
number_of-append acc c [] = refl
number_of-append acc c (d ∷ s) = number_of-append (10 * acc + (d - b'0')) c s

number_of-digits : (fuel n : ℕ) → n < fuel → number_of 0 (digits fuel n) ≡ n
unfolding digits
number_of-digits zero n h = absurd (omega arith)
number_of-digits (suc fuel) n h = elim (Bool-cases (ltb n 10)) [
  | inl small ↦ ground arith
  | inr large ↦
      let smaller : n / 10 < fuel = ground arith in
      rw large (
        number_of-append 0 (b'0' + n % 10) (digits fuel (n / 10))
        ∙ omega (arith, number_of-digits fuel (n / 10) smaller))
]

-- The decimal text of a time reads as that time, so the fuel for its digits is enough.
pub number_of-to_string : (n : ℕ) → number_of 0 (to_string (pos n)) ≡ n
unfolding to_string
number_of-to_string n = number_of-digits (suc n) n (omega arith)
