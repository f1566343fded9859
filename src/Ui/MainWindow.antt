-- ===== src/Ui/MainWindow.antt =====
-- src/client/ui/MainWindow.cpp: the slots that take messages and presence from the network, and
-- `onSendMessage`, and the choice of a channel. Of the widgets the model keeps the two lists, the
-- lines of the chat, the login dialog, the text under the splash and which page is shown.
pub mod Slots
pub mod Login
pub mod Unlock
pub mod Session
pub mod Offline
pub mod Construct
pub mod Start
pub mod Shows
pub mod LoggedIn
pub mod Registered
pub mod Requests
pub mod Updates
pub mod Create
pub mod Ids
pub mod Direct
pub mod Delivered
use nullchat.Base.{
  ℕ, zero, suc, ◌+◌, ◌/◌, ◌%◌, Str, ◌==◌, is_empty, Bool, true, false, not, ◌&&◌, ◌||◌, List, [],
  ◌∷◌, ◌++◌, ltb, if◌then◌else◌, Option, map, text,
}
use nullchat.Base.Int.{ℤ, pos, negsuc}
use nullchat.Qt.{Qt}
use nullchat.Message.{ChatMessage}
use nullchat.Client.{Client, send_group_message}
use nullchat.ClientCrypto.{ClientCrypto}
use nullchat.P2P.{P2PManager}
use nullchat.Ui.Chat.{Line, message, system_message}
use nullchat.Ui.LoginDialog.{LoginDialog}
use nullchat.Store.{MessageStore, save_message, load_messages}
use nullchat.Ui.ContactList.{
  ContactList, add_or_update_contact, increment_unread, clear_unread, contact_name,
}
use nullchat.Ui.MemberList.{MemberList, add_member, set_online}

pub data Page : Type 0 where
  splash login app : Page

-- `login_dialog` is none before `onSplashFinished` has made the dialog: the constructor does not
-- initialise the pointer, and `undefined` says that it, or one of those that `buildApp` sets, has been
-- read before it was set. `built` says that `buildApp` has run. `p2p` owns
-- the same `crypto`. `update_banner` is the release that the banner announces.
pub record MainWindow : Type 0 where
  pub user_id : Str
  pub username : Str
  pub current_channel_id : Str
  pub network : Client
  pub store : MessageStore
  pub channel_list : ContactList
  pub member_list : MemberList
  pub chat : List Line
  pub chat_header : Str
  pub placeholder : Str
  pub title : Str
  pub is_null : Bool
  pub last_password : Str
  pub crypto : ClientCrypto
  pub p2p : Option P2PManager
  pub login_dialog : Option LoginDialog
  pub status : Str
  pub page : Page
  pub built : Bool
  pub update_banner : Option Str
  pub undefined : Bool

-- `std::to_string`. A number has no more digits than its value and one.
unfoldable pub digits : ℕ → ℕ → Str
digits zero n = []
digits (suc fuel) n =
    let front = digits fuel (n / 10) in
    if ltb n 10 then (b'0' + n) ∷ [] else front ++ (b'0' + n % 10) ∷ []

unfoldable pub to_string : ℤ → Str
unfolding digits
to_string (pos n) = digits (suc n) n
to_string (negsuc n) = b'-' ∷ digits (suc (suc n)) (suc n)

-- The id of a message that comes without one.
unfoldable pub with_id : ChatMessage → ChatMessage
unfolding to_string
with_id m =
    if is_empty m.id then record m { id = to_string m.timestamp ++ b'_' ∷ m.sender_id } else m

unfoldable pub on_message_received : ChatMessage → MainWindow → MainWindow
unfolding with_id
on_message_received msg w =
    let m = with_id msg in
    let listed = add_or_update_contact m.sender_id m.sender_name w.channel_list in
    let counted =
      if m.sender_id == w.current_channel_id then listed else increment_unread m.sender_id listed in
    record w {
      store = save_message m w.store;
      channel_list =
          if is_empty m.group_id && not (m.sender_id == w.user_id) then counted else w.channel_list;
      member_list = add_member m.sender_id m.sender_name true false w.member_list;
    }

unfoldable pub on_group_message_received : ChatMessage → MainWindow → MainWindow
unfolding with_id
on_group_message_received msg w =
    let m = with_id msg in
    let shown = m.group_id == w.current_channel_id in
    record w {
      chat = if shown then w.chat ++ message m ∷ [] else w.chat;
      channel_list = if shown then w.channel_list else increment_unread m.group_id w.channel_list;
      store = save_message m w.store;
      member_list =
          if m.sender_id == w.user_id
          then w.member_list
          else add_member m.sender_id m.sender_name true false w.member_list;
    }

unfoldable pub on_user_online : Str → Str → MainWindow → MainWindow
on_user_online user_id username w = record w {
  member_list = add_member user_id username true false w.member_list;
}

unfoldable pub on_user_offline : Str → MainWindow → MainWindow
on_user_offline user_id w = record w { member_list = set_online user_id false w.member_list }

-- The slot of `ClientNetwork::mentionReceived`.
unfoldable pub on_mention_received : Str → Str → MainWindow → MainWindow
on_mention_received sender_name group_name w =
    let line = text "@" ++ sender_name ++ text " mentioned you in #" ++ group_name in
    record w { chat = w.chat ++ system_message line ∷ [] }

-- The slot of `ContactList::contactSelected`.
unfoldable pub contact_selected : Str → MainWindow → MainWindow
contact_selected id w =
    let channels = clear_unread id w.channel_list in
    let name = contact_name channels id in
    record w {
      current_channel_id = id;
      channel_list = channels;
      chat_header = text "  > #" ++ name;
      placeholder = text "> message #" ++ name ++ text "...";
      chat = map message (load_messages id (pos 100) w.store);
    }

module _ (q : Qt) where
  -- `entered` is the trimmed text of the input, `now` and `later` what the two calls of `now` give.
  unfoldable pub on_send_message : Str → ℤ → ℤ → MainWindow → MainWindow
  unfolding to_string
  on_send_message entered now later w =
      let msg : ChatMessage = record {
        id = to_string now ++ b'_' ∷ w.user_id;
        sender_id = w.user_id;
        sender_name = w.username;
        content = entered;
        group_id = w.current_channel_id;
        recipient_id = [];
        encrypted = false;
        timestamp = later;
      } in
      if is_empty entered || is_empty w.current_channel_id then w else record w {
        network = send_group_message q msg w.network;
        chat = w.chat ++ message msg ∷ [];
        store = save_message msg w.store;
      }
