-- ===== src/Ui/ContactList.antt =====
-- src/client/ui/ContactList.h and src/client/ui/ContactList.cpp: the contacts with their counters,
-- and the rows of the list that shows them. An item that is made with its list as parent is in the
-- list; adding it once more changes nothing.
pub mod Shown
pub mod Counted
pub mod Bounded
use nullchat.Base.{
  ℕ, zero, suc, Str, codes, ◌==◌, Bool, true, false, Option, none, some, List, [], ◌∷◌, ◌++◌,
  length, ltb, any, if◌then◌else◌, eqb, is_empty, ◌&&◌, ◌||◌, ◌-◌, ◌^◌, leb,
}
use nullchat.Base.Map.{Map, find, insert}

-- `unread` is an `int`. To count beyond its greatest value is undefined in C++: `overflowed` of the list
-- remembers that it has happened, and the number is then the one that should have been counted.
pub record ContactInfo : Type 0 where
  pub id : Str
  pub name : Str
  pub last_message : Str
  pub unread : ℕ

-- A row: the id that is stored in it, and its text.
pub record Item : Type 0 where
  pub id : Str
  pub label : Str

pub record ContactList : Type 0 where
  pub contacts : Map ContactInfo
  pub items : List Item
  pub is_admin : Bool
  pub overflowed : Bool

abbrev pub no_contacts : ContactList
no_contacts = record { contacts = []; items = []; is_admin = false; overflowed = false }

-- `UNREAD_BULLET`, "● " in UTF-8.
abbrev pub unread_bullet : Str
unread_bullet = 226 ∷ 151 ∷ 143 ∷ 32 ∷ []

unfoldable pub display_name : Str → ℕ → Str
display_name name unread = if ltb 0 unread then unread_bullet ++ name else name

-- The loops over the rows: the first row with the id gets another text.
unfoldable pub set_label : Str → Str → List Item → List Item
set_label id label [] = []
set_label id label (item ∷ items) =
    let rest = set_label id label items in
    if item.id == id then record { id = item.id; label = label } ∷ items else item ∷ rest

unfoldable pub add_or_update_contact : Str → Str → ContactList → ContactList
unfolding display_name set_label
add_or_update_contact id name l = elim (find id l.contacts) [
  | none ↦ add l.contacts
  | some c ↦
      let contacts = insert id (record c { name = name }) l.contacts in
      if any (λ item. item.id == id) l.items
      then record l {
        contacts = contacts;
        items = set_label id (display_name name c.unread) l.items;
      }
      else add contacts
]
  where
    add : Map ContactInfo → ContactList
    add contacts = record l {
      contacts =
          insert id (record { id = id; name = name; last_message = []; unread = 0 }) contacts;
      items = l.items ++ record { id = id; label = display_name name 0 } ∷ [];
    }

abbrev pub max_int : ℕ
max_int = 2 ^ 31 - 1

unfoldable pub increment_unread : Str → ContactList → ContactList
unfolding display_name set_label
increment_unread id l = elim (find id l.contacts) [
  | none ↦ l
  | some c ↦ record l {
    contacts = insert id (record c { unread = suc c.unread }) l.contacts;
    items = set_label id (display_name c.name (suc c.unread)) l.items;
    overflowed = l.overflowed || leb max_int c.unread;
  }
]

unfoldable pub clear_unread : Str → ContactList → ContactList
unfolding display_name set_label
clear_unread id l = elim (find id l.contacts) [
  | none ↦ l
  | some c ↦ record l {
    contacts = insert id (record c { unread = 0 }) l.contacts;
    items = set_label id (display_name c.name 0) l.items;
  }
]

unfoldable pub update_last_message : Str → Str → ContactList → ContactList
update_last_message id content l = elim (find id l.contacts) [
  | none ↦ l
  | some c ↦ record l { contacts = insert id (record c { last_message = content }) l.contacts }
]

unfoldable pub contact_name : ContactList → Str → Str
contact_name l id = elim (find id l.contacts) [ none ↦ id | some c ↦ c.name ]

unfoldable pub set_admin_mode : Bool → ContactList → ContactList
set_admin_mode admin l = record l { is_admin = admin }

-- The contact for which `selectFirst`, through `onItemClicked`, emits `contactSelected`.
unfoldable pub select_first : ContactList → Option Str
select_first l = first l.items
  where
    first : List Item → Option Str
    first [] = none
    first (item ∷ items) = some item.id

-- The signals of the context menu's entries.
pub data MenuEntry : Type 0 where
  rename delete : Str → MenuEntry
  create_channel : MenuEntry

-- The entries of the menu over an item, or beside the items.
unfoldable pub on_context_menu : Option Item → ContactList → List MenuEntry
on_context_menu none l = create_channel ∷ []
on_context_menu (some item) l =
    if l.is_admin
    then rename item.id ∷ delete item.id ∷ create_channel ∷ []
    else create_channel ∷ []

abbrev pub online_mark : Str
online_mark = codes " (online)"

-- Whether a text begins with another one, and whether it ends with it.
abbrev pub starts_with : Str → Str → Bool
starts_with [] s = true
starts_with (c ∷ p) [] = false
starts_with (c ∷ p) (d ∷ s) = eqb c d && starts_with p s

unfoldable pub ends_with : Str → Str → Bool
ends_with s [] = is_empty s
ends_with s (d ∷ t) = let rest = ends_with s t in if s == d ∷ t then true else rest

-- `QString::replace` by nothing, from left to right; `skip` counts what is left of an occurrence.
unfoldable pub remove_all : Str → ℕ → Str → Str
remove_all s skip [] = []
remove_all s (suc skip) (c ∷ t) = remove_all s skip t
remove_all s zero (c ∷ t) =
    let gone = remove_all s (length s - 1) t in
    let kept = remove_all s 0 t in if starts_with s (c ∷ t) then gone else c ∷ kept

unfoldable pub mark_online : Bool → Str → Str
unfolding ends_with remove_all
mark_online online label =
    if online
    then (if ends_with online_mark label then label else label ++ online_mark)
    else remove_all online_mark 0 label

-- The first row with the id is marked.
unfoldable pub set_online : Str → Bool → ContactList → ContactList
unfolding mark_online
set_online id online l = record l { items = marked l.items }
  where
    marked : List Item → List Item
    marked [] = []
    marked (item ∷ items) =
        let rest = marked items in
        if item.id == id
        then record { id = item.id; label = mark_online online item.label } ∷ items
        else item ∷ rest
