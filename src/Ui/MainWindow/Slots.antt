-- ===== src/Ui/MainWindow/Slots.antt =====
-- The two lists of the window under its slots.
use nullchat.Base.{
  Str, ◌==◌, is_empty, true, false, not, ◌&&◌, ◌||◌, List, [], ◌∷◌, inl, inr, Bool-cases,
}
use nullchat.Base.Int.{ℤ}
use nullchat.Qt.{Qt}
use nullchat.Message.{ChatMessage}
use nullchat.Ui.ContactList.{clear_unread}
use nullchat.Ui.ContactList.Shown
use nullchat.Ui.MemberList.Online
use nullchat.Ui.MainWindow.{
  MainWindow, with_id, on_message_received, on_group_message_received, on_user_online,
  on_user_offline, on_send_message, contact_selected,
}

-- What the network and the user do to the window.
pub data Slot : Type 0 where
  message_received group_message_received : ChatMessage → Slot
  user_online : Str → Str → Slot
  user_offline contact_selects : Str → Slot
  send_message : Str → ℤ → ℤ → Slot

pub record IsShown (w : MainWindow) : Type 0 where
  pub channels : Shown.IsShown w.channel_list
  pub members : Online.IsShown w.member_list

module _ (q : Qt) where
  pub slot : MainWindow → Slot → MainWindow
  slot w (message_received msg) = on_message_received msg w
  slot w (group_message_received msg) = on_group_message_received msg w
  slot w (user_online user_id username) = on_user_online user_id username w
  slot w (user_offline user_id) = on_user_offline user_id w
  slot w (contact_selects id) = contact_selected id w
  slot w (send_message entered now later) = on_send_message q entered now later w

  pub slots : MainWindow → List Slot → MainWindow
  slots w [] = w
  slots w (s ∷ ss) = slots (slot w s) ss

  slot-IsShown : (w : MainWindow) (s : Slot) → IsShown w → IsShown (slot w s)
  unfolding slot on_message_received on_group_message_received on_user_online on_user_offline
      on_send_message contact_selected clear_unread Shown.update_all Shown.update Online.apply_all
      Online.apply
  slot-IsShown w (message_received msg) shown =
      let m = with_id msg in
      let listed = Shown.adds m.sender_id m.sender_name in
      let channels = Shown.update_all-IsShown (listed ∷ []) w.channel_list shown.channels in
      let counted =
        Shown.update_all-IsShown (listed ∷ Shown.increments m.sender_id ∷ []) w.channel_list
          shown.channels in
      let added = Online.adds m.sender_id m.sender_name true false in
      record {
        channels = elim (Bool-cases (is_empty m.group_id && not (m.sender_id == w.user_id))) [
          | inl direct ↦ elim (Bool-cases (m.sender_id == w.current_channel_id)) [
            | inl open' ↦ rw (direct, open') channels
            | inr closed ↦ rw (direct, closed) counted
          ]
          | inr other ↦ rw other shown.channels
        ];
        members = Online.apply_all-IsShown (added ∷ []) w.member_list shown.members;
      }
  slot-IsShown w (group_message_received msg) shown =
      let m = with_id msg in
      let counted =
        Shown.update_all-IsShown (Shown.increments m.group_id ∷ []) w.channel_list shown.channels in
      let added = Online.adds m.sender_id m.sender_name true false in
      record {
        channels = elim (Bool-cases (m.group_id == w.current_channel_id)) [
          | inl open' ↦ rw open' shown.channels
          | inr closed ↦ rw closed counted
        ];
        members = elim (Bool-cases (m.sender_id == w.user_id)) [
          | inl own ↦ rw own shown.members
          | inr other ↦ rw other (Online.apply_all-IsShown (added ∷ []) w.member_list shown.members)
        ];
      }
  slot-IsShown w (user_online user_id username) shown = record {
    channels = shown.channels;
    members =
        Online.apply_all-IsShown (Online.adds user_id username true false ∷ []) w.member_list
          shown.members;
  }
  slot-IsShown w (user_offline user_id) shown = record {
    channels = shown.channels;
    members = Online.apply_all-IsShown (Online.sets user_id false ∷ []) w.member_list shown.members;
  }
  slot-IsShown w (contact_selects id) shown = record {
    channels = Shown.update_all-IsShown (Shown.clears id ∷ []) w.channel_list shown.channels;
    members = shown.members;
  }
  slot-IsShown w (send_message entered now later) shown =
      elim (Bool-cases (is_empty entered || is_empty w.current_channel_id)) [
        | inl nothing ↦ rw nothing shown
        | inr something ↦
            rw something (record { channels = shown.channels; members = shown.members })
      ]

  -- Whatever messages and notices arrive and whatever the user opens and sends, a window keeps
  -- this: each contact has a row with its name, marked if and only if there are unread messages,
  -- each member has a row with its name and whether it is online, nobody else has a row, and the
  -- header shows how many members are online.
  pub slots-IsShown : (w : MainWindow) (ss : List Slot) → IsShown w → IsShown (slots w ss)
  unfolding slots
  slots-IsShown w [] shown = shown
  slots-IsShown w (s ∷ ss) shown = slots-IsShown (slot w s) ss (slot-IsShown w s shown)
