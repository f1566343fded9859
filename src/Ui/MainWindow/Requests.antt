-- ===== src/Ui/MainWindow/Requests.antt =====
-- src/client/ui/MainWindow.cpp: the slots behind the channel list's menu, and the keys of the message
-- input. `onCreateGroup` is connected to nothing and left out. The user's answer to a dialog is an argument, none if it is cancelled.
use nullchat.Base.{Str, is_empty, Bool, false, not, ◌&&◌, Option, none, some, [], if◌then◌else◌}
use nullchat.Base.Int.{ℤ}
use nullchat.Qt.{Qt}
use nullchat.Client.{create_group, rename_group, delete_group}
use nullchat.Ui.ContactList.{MenuEntry, rename, delete, create_channel}
use nullchat.Ui.MainWindow.{MainWindow, on_send_message}

module _ (q : Qt) where
  unfoldable pub on_rename_requested : Option Str → Str → MainWindow → MainWindow
  on_rename_requested none id w = w
  on_rename_requested (some name) id w =
      if is_empty name then w else record w { network = rename_group q id name w.network }

  -- `confirmed` says that the question was answered with yes.
  unfoldable pub on_delete_requested : Bool → Str → MainWindow → MainWindow
  on_delete_requested confirmed id w =
      if confirmed then record w { network = delete_group q id w.network } else w

  unfoldable pub on_create_channel_requested : Option Str → MainWindow → MainWindow
  on_create_channel_requested none w = w
  on_create_channel_requested (some name) w =
      if is_empty name then w else record w { network = create_group q name [] w.network }

  -- The slot for an entry of the menu.
  unfoldable pub on_menu_entry : Option Str → Bool → MenuEntry → MainWindow → MainWindow
  unfolding on_rename_requested on_delete_requested on_create_channel_requested
  on_menu_entry name confirmed (rename id) w = on_rename_requested name id w
  on_menu_entry name confirmed (delete id) w = on_delete_requested confirmed id w
  on_menu_entry name confirmed create_channel w = on_create_channel_requested name w

-- An event of the message input: a key, by whether it is Return and whether Shift is held, or
-- something else.
pub data InputEvent : Type 0 where
  key_press : Bool → Bool → InputEvent
  other_event : InputEvent

-- `EnterFilter::eventFilter`: whether `enterPressed` is emitted and the event ends there. Every other
-- event is the input's own.
unfoldable pub event_filter : InputEvent → Bool
event_filter (key_press is_return shift) = is_return && not shift
event_filter other_event = false

module _ (q : Qt) where
  -- `enterPressed` is connected to `onSendMessage`.
  unfoldable pub on_input_event : InputEvent → Str → ℤ → ℤ → MainWindow → MainWindow
  unfolding event_filter
  on_input_event event entered now later w =
      if event_filter event then on_send_message q entered now later w else w
