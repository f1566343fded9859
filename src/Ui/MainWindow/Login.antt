-- ===== src/Ui/MainWindow/Login.antt =====
-- src/client/ui/MainWindow.cpp: logging in and registering, and the session that is saved for the
-- next start. The answers that the user gives in dialogs are arguments, and
-- so is what the network does during a call. The slots for the signals that a call has emitted run
-- when it returns.
use nullchat.Base.{
  Str, text, is_empty, Bool, true, false, not, ◌&&◌, Option, none, some, List, [], ◌∷◌, ◌++◌,
  length, drop, if◌then◌else◌, ok, err,
}
use nullchat.Qt.{Qt}
use nullchat.Crypto.{OpenSsl, sha256}
use nullchat.Crypto.Ecdh.{EcKeys}
use nullchat.Client.{
  Client, GroupEntry, Signal, auth_success, auth_error, message_received, group_message_received,
  user_online, user_offline, p2p_offer_received, mention_received, set_public_key,
}
use nullchat.Client.Connect.{Network, connect_and_login, connect_and_register}
use nullchat.P2P.{new_manager, handle_offer}
use nullchat.Store.{save_blob, load_blob}
use nullchat.Ui.ContactList.{
  ContactList, no_contacts, add_or_update_contact, select_first, set_admin_mode,
}
use nullchat.Ui.MemberList.{no_members, add_member}
use nullchat.Ui.LoginDialog.{LoginDialog, set_connecting, set_error}
use nullchat.Ui.MainWindow.{
  MainWindow, on_message_received, on_group_message_received, on_user_online, on_user_offline,
  on_mention_received, contact_selected,
}
use nullchat.Ui.MainWindow

unfoldable pub add_groups : List GroupEntry → ContactList → ContactList
add_groups [] l = l
add_groups (g ∷ groups) l = add_groups groups (add_or_update_contact g.id g.name l)

-- `buildApp` makes new widgets; the update check is a request that is answered later.
unfoldable pub switch_to_app : MainWindow → MainWindow
unfolding add_groups
switch_to_app w =
    let listed = add_groups w.network.initial_groups no_contacts in
    let built = record w {
      channel_list = listed;
      member_list = no_members;
      chat = [];
      chat_header = text "  > select a channel";
      placeholder = text "> type a message...";
      update_banner = none;
    } in
    let opened : MainWindow = elim (select_first listed) [
      | none ↦ built
      | some id ↦ contact_selected id built
    ] in
    record opened {
      channel_list = set_admin_mode w.is_null opened.channel_list;
      member_list = add_member w.user_id w.username true w.is_null opened.member_list;
      page = MainWindow.app;
      title = text "nullchat - " ++ w.username ++ (if w.is_null then text " [admin]" else []);
      built = true;
    }

unfoldable pub on_auth_error : Str → MainWindow → MainWindow
on_auth_error error w = elim w.login_dialog [
  | none ↦ record w { undefined = true }
  | some d ↦ record w {
    login_dialog = some (set_error error (set_connecting false d));
    status = error;
  }
]

-- The slots for messages and presence use the lists and the chat, whose pointers `buildApp` sets.
unfoldable pub in_app : MainWindow → MainWindow → MainWindow
in_app w shown = if w.built then shown else record w { undefined = true }

-- The text of a saved session.
unfoldable pub session_text : Str → Str → Str
session_text username password = username ++ b':' ∷ password

module _ (ssl : OpenSsl) where
  unfoldable pub save_session : Str → MainWindow → MainWindow
  unfolding session_text
  save_session pin w = record w {
    store =
        save_blob (text "session") (session_text w.username w.last_password)
          (save_blob (text "pin_hash") (sha256 ssl pin) w.store);
  }

  -- The offer to set a PIN. `pin` is the answer to the dialog, none if it is cancelled.
  unfoldable pub offer_pin : Option Str → MainWindow → MainWindow
  unfolding save_session
  offer_pin none w = w
  offer_pin (some pin) w =
      let asks = is_empty (load_blob (text "session") w.store) && not (is_empty w.last_password) in
      if asks && not (is_empty pin) then save_session pin w else w

  unfoldable pub on_auth_success : Option Str → Str → Str → MainWindow → MainWindow
  unfolding offer_pin switch_to_app
  on_auth_success pin user_id username w = switch_to_app (
      offer_pin pin (record w {
        user_id = user_id;
        username = username;
        is_null = w.network.is_null;
        p2p = some (new_manager w.crypto);
      }))

module _ (ec : EcKeys) (ssl : OpenSsl) where
  -- The connection to `P2PManager::handleOffer`. An exception must not leave a slot of Qt.
  unfoldable pub on_p2p_offer : Str → Str → MainWindow → MainWindow
  on_p2p_offer from_id public_key w = elim w.p2p [
    | none ↦ w
    | some m ↦
        let (done, m') = handle_offer ec ssl from_id public_key (record m { crypto = w.crypto }) in
        let after = record w { p2p = some m'; crypto = m'.crypto } in
        elim done [ err why ↦ record after { undefined = true } | ok u ↦ after ]
  ]

  -- The slots that the constructor and `onAuthSuccess` connect.
  unfoldable pub on_signal : Option Str → Signal → MainWindow → MainWindow
  unfolding on_auth_success on_auth_error on_p2p_offer
  on_signal pin (auth_success user_id username) w = on_auth_success ssl pin user_id username w
  on_signal pin (auth_error error) w = on_auth_error error w
  on_signal pin (message_received msg) w = in_app w (on_message_received msg w)
  on_signal pin (group_message_received msg) w = in_app w (on_group_message_received msg w)
  on_signal pin (user_online user_id username) w = in_app w (on_user_online user_id username w)
  on_signal pin (user_offline user_id) w = in_app w (on_user_offline user_id w)
  on_signal pin (p2p_offer_received from_id sdp public_key) w = on_p2p_offer from_id public_key w
  on_signal pin (mention_received sender_id sender_name group_id group_name content) w =
      in_app w (on_mention_received sender_name group_name w)
  on_signal pin _ w = w

  unfoldable pub on_signals : Option Str → List Signal → MainWindow → MainWindow
  unfolding on_signal
  on_signals pin [] w = w
  on_signals pin (s ∷ ss) w = on_signals pin ss (on_signal pin s w)

  -- A call of the network, with the slots for what it has emitted.
  unfoldable pub call : Option Str → (Client → Bool × Client) → MainWindow → Bool × MainWindow
  unfolding on_signals
  call pin connects w =
      let before = set_public_key w.crypto.ecdh_keypair.public_key w.network in
      let (done, c) = connects before in
      (done, on_signals pin (drop (length before.signals) c.signals) (record w { network = c }))

abbrev pub connecting : Option LoginDialog → Option LoginDialog
connecting none = none
connecting (some d) = some (set_connecting true d)

-- What happens during one call that logs in: the network's part, and the answer to the dialog for a
-- new PIN.
pub record Attempt : Type 0 where
  pub network : Network
  pub new_pin : Option Str

module _ (q : Qt) (ec : EcKeys) (ssl : OpenSsl) where
  unfoldable pub call_login : Attempt → Str → Str → MainWindow → Bool × MainWindow
  unfolding call
  call_login attempt username password w =
      let key = w.crypto.ecdh_keypair.public_key in
      call ec ssl attempt.new_pin (connect_and_login q attempt.network username password key) w

  unfoldable pub on_login_requested : Attempt → Str → Str → MainWindow → MainWindow
  unfolding call_login
  on_login_requested attempt username password w =
      let w' = record w {
        login_dialog = connecting w.login_dialog;
        status = text "logging in as " ++ username ++ text "...";
        last_password = password;
      } in
      (call_login attempt username password w').1

  unfoldable pub on_register_requested : Attempt → Str → Str → Str → MainWindow → MainWindow
  unfolding call
  on_register_requested attempt username password invite w =
      let key = w.crypto.ecdh_keypair.public_key in
      let w' = record w {
        login_dialog = connecting w.login_dialog;
        status = text "registering " ++ username ++ text "...";
        last_password = password;
      } in
      (call ec ssl attempt.new_pin
        (connect_and_register q attempt.network username password key invite) w').1
