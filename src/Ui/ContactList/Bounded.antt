-- ===== src/Ui/ContactList/Bounded.antt =====
-- The counters of unread messages are values of `int`.
use nullchat.Base.{ℕ, ◌≤◌, ◌≡◌, Str, false, some}
use nullchat.Base.Map.{find}
use nullchat.Ui.ContactList.{ContactInfo, ContactList}

-- No counter is greater than `n`, and none has been counted beyond an `int`.
record IsBounded (n : ℕ) (l : ContactList) : Type 0 where
  counts : (j : Str) (c : ContactInfo) → find j l.contacts ≡ some c → c.unread ≤ n
  sound : l.overflowed ≡ false
