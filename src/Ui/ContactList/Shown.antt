-- ===== src/Ui/ContactList/Shown.antt =====
-- The contacts and what the rows of the list show.
use nullchat.Base.{
  suc, ◌≡◌, refl, Str, ◌==◌, true, false, Option, none, some, List, [], ◌∷◌, ◌++◌, any, arith,
  if◌then◌else◌, Option-cases, inl, inr,
}
use nullchat.Base.Map.{find, find-insert}
use nullchat.Ui.ContactList.{
  ContactInfo, Item, ContactList, display_name, set_label, add_or_update_contact, increment_unread,
  clear_unread, update_last_message,
}

-- The text of the first row with the id.
abbrev pub label_of : List Item → Str → Option Str
label_of [] id = none
label_of (item ∷ items) id = if item.id == id then some item.label else label_of items id

-- The text that a contact should have.
abbrev pub label_for : Option ContactInfo → Option Str
label_for none = none
label_for (some c) = some (display_name c.name c.unread)

-- Each contact has its row, which shows its name and whether there are unread messages; there are no
-- rows of others.
abbrev pub IsShown : ContactList → Type 0
IsShown l = (id : Str) → label_of l.items id ≡ label_for (find id l.contacts)

pub data Update : Type 0 where
  adds : Str → Str → Update
  increments clears : Str → Update
  updates : Str → Str → Update

unfoldable pub update : Update → ContactList → ContactList
update (adds id name) l = add_or_update_contact id name l
update (increments id) l = increment_unread id l
update (clears id) l = clear_unread id l
update (updates id content) l = update_last_message id content l

unfoldable pub update_all : List Update → ContactList → ContactList
update_all [] l = l
update_all (u ∷ us) l = update_all us (update u l)

label_of-set_label :
    (id label j : Str) (items : List Item)
    → label_of (set_label id label items) j ≡ (
        if j == id
        then elim (label_of items id) [ none ↦ none | some old ↦ some label ]
        else label_of items j)
unfolding set_label
label_of-set_label id label j [] = ground arith
label_of-set_label id label j (item ∷ items) = ground (arith, label_of-set_label id label j items)

label_of-append :
    (items : List Item) (id label j : Str)
    → label_of (items ++ record { id = id; label = label } ∷ []) j ≡ elim (label_of items j) [
      | none ↦ if id == j then some label else none
      | some old ↦ some old
    ]
label_of-append [] id label j = refl
label_of-append (item ∷ items) id label j = ground (arith, label_of-append items id label j)

pub any-label_of :
    (items : List Item) (id : Str)
    → any (λ item. item.id == id) items ≡ elim (label_of items id) [ none ↦ false | some l ↦ true ]
any-label_of [] id = refl
any-label_of (item ∷ items) id = ground (arith, any-label_of items id)

pub update-IsShown : (u : Update) (l : ContactList) → IsShown l → IsShown (update u l)
unfolding update add_or_update_contact increment_unread clear_unread update_last_message
update-IsShown (adds id name) l shown j =
    let new : ContactInfo = record { id = id; name = name; last_message = []; unread = 0 } in
    elim (Option-cases (find id l.contacts)) [
      | inl absent ↦ ground (
        arith,
        shown id,
        shown j,
        find-insert j id new l.contacts,
        label_of-append l.items id (display_name name 0) j,
      )
      | inr (c, present) ↦ ground (
        arith,
        shown id,
        shown j,
        find-insert j id (record c { name = name }) l.contacts,
        label_of-set_label id (display_name name c.unread) j l.items,
        any-label_of l.items id,
      )
    ]
update-IsShown (increments id) l shown j = elim (Option-cases (find id l.contacts)) [
  | inl absent ↦ ground (arith, shown j)
  | inr (c, present) ↦ ground (
    arith,
    shown id,
    shown j,
    find-insert j id (record c { unread = suc c.unread }) l.contacts,
    label_of-set_label id (display_name c.name (suc c.unread)) j l.items,
  )
]
update-IsShown (clears id) l shown j = elim (Option-cases (find id l.contacts)) [
  | inl absent ↦ ground (arith, shown j)
  | inr (c, present) ↦ ground (
    arith,
    shown id,
    shown j,
    find-insert j id (record c { unread = 0 }) l.contacts,
    label_of-set_label id (display_name c.name 0) j l.items,
  )
]
update-IsShown (updates id content) l shown j = elim (Option-cases (find id l.contacts)) [
  | inl absent ↦ ground (arith, shown j)
  | inr (c, present) ↦
      ground (
        arith,
        shown id,
        shown j,
        find-insert j id (record c { last_message = content }) l.contacts,
      )
]

-- Whatever contacts are added or renamed, and whatever messages are counted, read or noted, the
-- list keeps this: each contact has a row with its name, marked if and only if it has unread
-- messages, and nobody else has a row.
pub update_all-IsShown :
    (us : List Update) (l : ContactList) → IsShown l → IsShown (update_all us l)
unfolding update_all
update_all-IsShown [] l shown = shown
update_all-IsShown (u ∷ us) l shown = update_all-IsShown us (update u l) (update-IsShown u l shown)
