-- ===== src/Ui/ContactList/Counted.antt =====
-- The contact list against its contract: a name and a number of unread messages for each contact.
use nullchat.Base.{
  ℕ, suc, ◌≡◌, refl, ap, ◌∙◌, Str, ◌==◌, Option, none, some, List, [], ◌∷◌, arith, if◌then◌else◌,
  Option-cases, inl, inr,
}
use nullchat.Base.Map.{find, find-insert}
use nullchat.Ui.ContactList.{
  ContactInfo, ContactList, no_contacts, display_name, add_or_update_contact, increment_unread,
  clear_unread, update_last_message,
}
use nullchat.Ui.ContactList.Shown.{
  Update, adds, increments, clears, updates, update, update_all, label_of, label_for, IsShown,
  any-label_of, update-IsShown, update_all-IsShown,
}

-- What the user is told of a contact.
pub record Entry : Type 0 where
  pub name : Str
  pub unread : ℕ

abbrev pub Contract : Type 0
Contract = Str → Option Entry

abbrev pub renamed : Str → Option Entry → Entry
renamed name none = record { name = name; unread = 0 }
renamed name (some e) = record e { name = name }

abbrev pub counted : Option Entry → Option Entry
counted none = none
counted (some e) = some (record e { unread = suc e.unread })

abbrev pub cleared : Option Entry → Option Entry
cleared none = none
cleared (some e) = some (record e { unread = 0 })

unfoldable pub agree : Update → Contract → Contract
agree (adds id name) c j = if j == id then some (renamed name (c id)) else c j
agree (increments id) c j = if j == id then counted (c id) else c j
agree (clears id) c j = if j == id then cleared (c id) else c j
agree (updates id content) c j = c j

unfoldable pub agree_all : List Update → Contract → Contract
unfolding agree
agree_all [] c = c
agree_all (u ∷ us) c = agree_all us (agree u c)

abbrev pub entry_of : Option ContactInfo → Option Entry
entry_of none = none
entry_of (some c) = some (record { name = c.name; unread = c.unread })

abbrev pub view : ContactList → Contract
view l j = entry_of (find j l.contacts)

view-update :
    (u : Update) (l : ContactList) (j : Str) → IsShown l → view (update u l) j ≡ agree u (view l) j
unfolding update agree add_or_update_contact increment_unread clear_unread update_last_message
view-update (adds id name) l j shown =
    let new : ContactInfo = record { id = id; name = name; last_message = []; unread = 0 } in
    elim (Option-cases (find id l.contacts)) [
      | inl absent ↦ ground (arith, find-insert j id new l.contacts)
      | inr (c, present) ↦ ground (
        arith,
        shown id,
        any-label_of l.items id,
        find-insert j id (record c { name = name }) l.contacts,
      )
    ]
view-update (increments id) l j shown = elim (Option-cases (find id l.contacts)) [
  | inl absent ↦ ground arith
  | inr (c, present) ↦
      ground (arith, find-insert j id (record c { unread = suc c.unread }) l.contacts)
]
view-update (clears id) l j shown = elim (Option-cases (find id l.contacts)) [
  | inl absent ↦ ground arith
  | inr (c, present) ↦ ground (arith, find-insert j id (record c { unread = 0 }) l.contacts)
]
view-update (updates id content) l j shown = elim (Option-cases (find id l.contacts)) [
  | inl absent ↦ ground arith
  | inr (c, present) ↦
      ground (arith, find-insert j id (record c { last_message = content }) l.contacts)
]

pub view-update_all :
    (us : List Update) (l : ContactList)
    → IsShown l
    → view (update_all us l) ≡ agree_all us (view l)
unfolding update_all agree_all
view-update_all [] l shown = refl
view-update_all (u ∷ us) l shown =
    let step : view (update u l) ≡ agree u (view l) = λ i j. view-update u l j shown i in
    view-update_all us (update u l) (update-IsShown u l shown) ∙ ap (agree_all us) step

-- The text of the row of an entry.
abbrev pub text_of : Option Entry → Option Str
text_of none = none
text_of (some e) = some (display_name e.name e.unread)

label_for-entry_of : (c : Option ContactInfo) → label_for c ≡ text_of (entry_of c)
label_for-entry_of none = refl
label_for-entry_of (some c) = refl

empty-IsShown : IsShown no_contacts
unfolding find
empty-IsShown id = refl

-- Whatever happens to an empty list, the row of each contact shows what the contract says: the name
-- that was given last, with the mark if and only if messages have been counted since the contact was
-- new or was read last, and there is no row for anybody who was not added.
pub label_of-update_all :
    (us : List Update) (j : Str)
    → label_of (update_all us no_contacts).items j ≡ text_of (agree_all us (λ id. none) j)
unfolding find
label_of-update_all us j =
    let shown = update_all-IsShown us no_contacts empty-IsShown in
    let same = view-update_all us no_contacts empty-IsShown in
    shown j
    ∙ label_for-entry_of (find j (update_all us no_contacts).contacts)
    ∙ ap (λ c. text_of (c j)) same
