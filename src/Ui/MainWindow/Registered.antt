-- ===== src/Ui/MainWindow/Registered.antt =====
-- From the login dialog to the page of the app by a registration.
use nullchat.Base.{
  ◌≡◌, refl, ap, ◌∙◌, ◌<◌, ◌^◌, Str, text, is_empty, true, false, some, [], ◌∷◌, ◌++◌, length, drop,
  drop-append_self, append_assoc,
}
use nullchat.Qt.{Qt, IsQt}
use nullchat.Crypto.{OpenSsl}
use nullchat.Crypto.Ecdh.{EcKeys}
use nullchat.Protocol.{auth_response, make_packet, serialize}
use nullchat.Store.{load_blob}
use nullchat.Client.{Client, connected, auth_success, send_packet, set_public_key}
use nullchat.Client.Receive.{on_connected}
use nullchat.Client.Register.{
  register_response, registered, enrolling, connect_and_register_accepted,
}
use nullchat.Ui.MainWindow.{MainWindow}
use nullchat.Ui.MainWindow.Login.{
  Attempt, session_text, on_auth_success, on_signals, on_signal, call, on_register_requested,
  connecting,
}
use nullchat.Ui.MainWindow.Unlock.{split_session}
use nullchat.Ui.MainWindow.Session.{load_blob-on_auth_success, split_session-session_text}
use nullchat.Ui.MainWindow.Shows.{Shows, on_auth_success-Shows}

module _ (q : Qt) (lawful : IsQt q) (ec : EcKeys) (ssl : OpenSsl) where
  -- What has been emitted when the server has registered a client that was not connected before.
  registered_signals :
      (username password key invite : Str) (c : Client)
      → c.online ≡ false
      → is_empty c.pending_username ≡ true
      → drop
          (length c.signals)
          (registered q lawful (enrolling q lawful username password key invite c)).signals
        ≡ connected ∷ auth_success [] [] ∷ []
  unfolding send_packet on_connected
  registered_signals username password key invite c down idle =
      let news = connected ∷ auth_success [] [] ∷ [] in
      rw (down, idle)
        (ap (drop (length c.signals))
            (append_assoc c.signals (connected ∷ []) (auth_success [] [] ∷ []))
          ∙ drop-append_self c.signals news)

  -- The window after the call, when `onAuthSuccess` is about to run.
  abbrev asked_for : Str → Str → Str → MainWindow → MainWindow
  asked_for username password invite w =
      let key = w.crypto.ecdh_keypair.public_key in
      record w {
        network =
            registered q lawful
              (enrolling q lawful username password key invite (set_public_key key w.network));
        last_password = password;
        login_dialog = connecting w.login_dialog;
        status = text "registering " ++ username ++ text "...";
      }

  on_register_requested_lem :
      (attempt : Attempt) (username password invite : Str) (w : MainWindow)
      → attempt.network.connects ≡ true
      → attempt.network.answer
        ≡ some (serialize q (make_packet auth_response (register_response q lawful)))
      → attempt.network.later ≡ []
      → attempt.network.last ≡ []
      → length (register_response q lawful) < 2 ^ 32
      → w.network.online ≡ false
      → is_empty w.network.pending_username ≡ true
      → w.network.read_buffer ≡ []
      → on_register_requested q ec ssl attempt username password invite w
        ≡ on_auth_success ssl attempt.new_pin [] [] (asked_for username password invite w)
  unfolding on_register_requested call on_signals on_signal set_public_key
  on_register_requested_lem attempt username password invite w up answer later last fits down idle
        empty =
      let key = w.crypto.ecdh_keypair.public_key in
      let before = set_public_key key w.network in
      let done =
        connect_and_register_accepted q lawful attempt.network username password key invite before
          up answer later last fits empty in
      let news = registered_signals username password key invite before down idle in
      rw (done, news) refl

  -- A registration from the dialog with a password that is not empty, in an opened store that holds no
  -- session, of a client that is not connected, with no credentials pending and an empty buffer. The
  -- connection comes up, the answer of the server that it has made the account arrives in one piece,
  -- shorter than 2 ^ 32 bytes and with nothing behind it, and the user sets a PIN that is not empty when
  -- the window asks for one. Then the window shows the page of the app, but for a user without id and
  -- name, and the session that is saved is for the empty user name, which is how the next start reads it.
  pub on_register_requested-Shows :
      (attempt : Attempt) (username password invite pin : Str) (w : MainWindow)
      → attempt.network.connects ≡ true
      → attempt.network.answer
        ≡ some (serialize q (make_packet auth_response (register_response q lawful)))
      → attempt.network.later ≡ []
      → attempt.network.last ≡ []
      → length (register_response q lawful) < 2 ^ 32
      → w.network.online ≡ false
      → is_empty w.network.pending_username ≡ true
      → w.network.read_buffer ≡ []
      → attempt.new_pin ≡ some pin
      → is_empty pin ≡ false
      → is_empty password ≡ false
      → w.store.opened ≡ true
      → load_blob (text "session") w.store ≡ []
      → let w' = on_register_requested q ec ssl attempt username password invite w in
        let saved = load_blob (text "session") w'.store in
        Shows w' [] [] []
        × (saved ≡ session_text [] password)
        × (split_session saved ≡ some ([], password))
  unfolding set_public_key
  on_register_requested-Shows attempt username password invite pin w up answer later last fits down
        idle empty asked given known open' unsaved =
      let left = asked_for username password invite w in
      let session = (load_blob-on_auth_success ssl pin [] [] left open' unsaved known given).0 in
      let does =
        on_register_requested_lem attempt username password invite w up answer later last fits down
          idle empty in
      rw (does, asked)
        (
          on_auth_success-Shows ssl (some pin) [] [] left,
          session,
          ap split_session session ∙ (split_session-session_text [] password).1 refl,
        )
