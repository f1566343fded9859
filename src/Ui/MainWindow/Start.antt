-- ===== src/Ui/MainWindow/Start.antt =====
-- The lists of the window from the moment of a login on.
use nullchat.Base.{refl, List, [], ◌∷◌, Option-cases, inl, inr, true}
use nullchat.Base.Map.{find}
use nullchat.Qt.{Qt}
use nullchat.Client.{GroupEntry}
use nullchat.Ui.ContactList.{
  ContactList, no_contacts, add_or_update_contact, select_first, clear_unread, set_admin_mode,
}
use nullchat.Ui.ContactList.Shown
use nullchat.Ui.MemberList.{no_members, count_online}
use nullchat.Ui.MemberList.Online
use nullchat.Ui.MainWindow.{MainWindow, contact_selected}
use nullchat.Ui.MainWindow.Slots.{Slot, IsShown, slots, slots-IsShown}
use nullchat.Ui.MainWindow.Login.{switch_to_app, add_groups}

no_contacts-IsShown : Shown.IsShown no_contacts
unfolding find
no_contacts-IsShown id = refl

no_members-IsShown : Online.IsShown no_members
unfolding find count_online
no_members-IsShown = record { rows = λ id. refl; header = refl }

add_groups-IsShown :
    (groups : List GroupEntry) (l : ContactList)
    → Shown.IsShown l
    → Shown.IsShown (add_groups groups l)
unfolding add_groups Shown.update_all Shown.update
add_groups-IsShown [] l shown = shown
add_groups-IsShown (g ∷ groups) l shown =
    add_groups-IsShown groups (add_or_update_contact g.id g.name l)
      (Shown.update_all-IsShown (Shown.adds g.id g.name ∷ []) l shown)

switch_to_app-IsShown : (w : MainWindow) → IsShown (switch_to_app w)
unfolding switch_to_app contact_selected clear_unread Shown.update_all Shown.update Online.apply_all
    Online.apply set_admin_mode
switch_to_app-IsShown w =
    let listed = add_groups w.network.initial_groups no_contacts in
    let channels = add_groups-IsShown w.network.initial_groups no_contacts no_contacts-IsShown in
    let self = Online.adds w.user_id w.username true w.is_null in
    let members = Online.apply_all-IsShown (self ∷ []) no_members no_members-IsShown in
    elim (Option-cases (select_first listed)) [
      | inl nothing ↦
          rw (switch_to_app, nothing) (record { channels = channels; members = members })
      | inr (id, chosen) ↦
          rw (switch_to_app, chosen)
            (record {
              channels = Shown.update_all-IsShown (Shown.clears id ∷ []) listed channels;
              members = members;
            })
    ]

module _ (q : Qt) where
  -- From a login on, whatever window it finds and whatever groups come with it, and whatever messages
  -- and notices arrive and the user opens and sends after it: each contact has a row with its name,
  -- marked if and only if there are unread messages, each member has a row with its name and whether
  -- it is online, nobody else has a row, and the header shows how many members are online.
  pub slots-switch_to_app-IsShown :
      (w : MainWindow) (ss : List Slot) → IsShown (slots q (switch_to_app w) ss)
  slots-switch_to_app-IsShown w ss = slots-IsShown q (switch_to_app w) ss (switch_to_app-IsShown w)
