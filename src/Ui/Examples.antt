-- ===== src/Ui/Examples.antt =====
-- The window's lists in use.
mod Restart
mod Start
mod Delivery
mod Registration
mod Widgets
use nullchat.Base.{◌≡◌, refl, Str, arith, ◌==◌, true, false, none, [], ◌∷◌, filter}
use nullchat.Base.Int.{pos}
use nullchat.Qt.Sample.{sample as qt, sample-IsQt as qt-IsQt}
use nullchat.Message.{ChatMessage}
use nullchat.Protocol.{group_message, make_packet, serialize}
use nullchat.Server.State.{Server, new_session, initial}
use nullchat.Server.Handlers.{handle_group_message}
use nullchat.Client.{new_client}
use nullchat.Store.{row_of}
use nullchat.ClientCrypto.{ClientCrypto}
use nullchat.Ui.ContactList.{no_contacts}
use nullchat.Ui.ContactList.Shown
use nullchat.Ui.MemberList.{no_members}
use nullchat.Ui.MemberList.Online
use nullchat.Ui.MainWindow.{
  MainWindow, with_id, on_message_received, on_group_message_received, on_send_message,
  contact_selected, app,
}
use nullchat.Ui.MainWindow.Direct.{
  contact_selected-on_message_received, handle_group_message-on_send_message,
}
use nullchat.Ui.MainWindow.Ids.{on_group_message_received_replaces}

abbrev pub bob : Str
bob = b'b' ∷ []

abbrev pub message : Str → ChatMessage
message content = record {
  id = [];
  sender_id = bob;
  sender_name = bob;
  content = content;
  group_id = 3 ∷ [];
  recipient_id = [];
  encrypted = false;
  timestamp = pos 12;
}

abbrev pub keys : ClientCrypto
keys = record {
  keypair = record { public_key = []; private_key = [] };
  ecdh_keypair = record { public_key = []; private_key = [] };
  shared_keys = [];
  keys_drawn = 0;
  random_drawn = 0;
}

abbrev pub window : MainWindow
window = record {
  user_id = b'a' ∷ [];
  username = b'a' ∷ [];
  current_channel_id = 3 ∷ [];
  network = new_client;
  store = record { opened = true; messages = []; settings = [] };
  channel_list = no_contacts;
  member_list = no_members;
  chat = [];
  chat_header = [];
  placeholder = [];
  title = [];
  is_null = false;
  last_password = [];
  crypto = keys;
  p2p = none;
  login_dialog = none;
  status = [];
  page = app;
  built = true;
  update_banner = none;
  undefined = false;
}

on_group_message_received_replaces_example :
    let w' =
      on_group_message_received
        (message (2 ∷ []))
        (on_group_message_received (message (1 ∷ [])) window) in
    filter (λ m. m.id == (with_id (message (1 ∷ []))).id) w'.store.messages
    ≡ row_of (with_id (message (2 ∷ []))) ∷ []
on_group_message_received_replaces_example =
    on_group_message_received_replaces (message (1 ∷ [])) (message (2 ∷ [])) window refl refl refl
      refl refl

abbrev direct : ChatMessage
direct = record (message (1 ∷ [])) { group_id = [] }

contact_selected-on_message_received_example :
    (contact_selected bob (on_message_received direct window)).chat
    ≡ (contact_selected bob window).chat
contact_selected-on_message_received_example =
    contact_selected-on_message_received direct window refl (ground arith) refl

-- A server with a session that has logged in, and without groups.
abbrev server : Server
server =
    record (initial
      (record { users = []; groups = []; members = []; messages = []; uuids = 0; faults = [] })) {
        objects = λ i. record new_session { user_id = b'a' ∷ []; authenticated = true };
        created = 1;
      }

handle_group_message-on_send_message_example :
    (body : Str) × ((on_send_message qt (7 ∷ []) (pos 1) (pos 2) window).network.sent
      ≡ serialize qt (make_packet group_message body) ∷ [])
    × ((handle_group_message qt 0 body server).sent ≡ server.sent)
handle_group_message-on_send_message_example =
    handle_group_message-on_send_message qt qt-IsQt (7 ∷ []) (pos 1) (pos 2) window 0 server refl
      refl refl refl
