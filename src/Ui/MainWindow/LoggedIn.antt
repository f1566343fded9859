-- ===== src/Ui/MainWindow/LoggedIn.antt =====
-- From the login dialog to the page of the app.
use nullchat.Base.{
  ◌≡◌, ap, ◌∙◌, ◌<◌, ◌^◌, Str, text, is_empty, true, false, some, List, [], ◌∷◌, ◌++◌, map, length,
  drop, drop-append_self, append_assoc,
}
use nullchat.Qt.{Qt, IsQt}
use nullchat.Crypto.{OpenSsl}
use nullchat.Crypto.Ecdh.{EcKeys}
use nullchat.Protocol.{auth_response, make_packet, serialize}
use nullchat.Server.Groups.{GroupInfo}
use nullchat.Server.Handlers.{login_response}
use nullchat.Client.{Client, connected, auth_success, send_packet, set_public_key}
use nullchat.Client.Receive.{on_connected}
use nullchat.Client.Login.{connect_and_login_accepted, logged_in, asking}
use nullchat.Ui.MainWindow.{MainWindow}
use nullchat.Ui.MainWindow.Login.{
  Attempt, on_signals, on_signal, call, call_login, on_login_requested, connecting,
}
use nullchat.Ui.MainWindow.Shows.{Shows, on_auth_success-Shows}

module _ (q : Qt) (lawful : IsQt q) (ec : EcKeys) (ssl : OpenSsl) where
  -- What has been emitted when the server has accepted a client that was not connected before.
  accepted_signals :
      (username password key id name : Str) (groups : List GroupInfo) (c : Client)
      → c.online ≡ false
      → is_empty c.pending_username ≡ true
      → drop
          (length c.signals)
          (logged_in q lawful id name groups (asking q lawful username password key c)).signals
        ≡ connected ∷ auth_success id name ∷ []
  unfolding send_packet on_connected
  accepted_signals username password key id name groups c down idle =
      let news = connected ∷ auth_success id name ∷ [] in
      rw (down, idle)
        (ap (drop (length c.signals))
            (append_assoc c.signals (connected ∷ []) (auth_success id name ∷ []))
          ∙ drop-append_self c.signals news)

  -- A login from the dialog, of a client that is not connected, with no credentials pending and an
  -- empty buffer: if the connection comes up and the server's answer arrives in one piece, with a
  -- body of less than 2 ^ 32 bytes and nothing behind it, then the window shows the page of the app,
  -- for the user of the answer, with a contact for each group of the answer, whatever the user
  -- answers when a PIN is offered.
  pub on_login_requested-Shows :
      (attempt : Attempt) (username password id name : Str) (groups : List GroupInfo)
      (w : MainWindow)
      → let body = q.print (login_response q id name groups) in
        attempt.network.connects ≡ true
        → attempt.network.answer ≡ some (serialize q (make_packet auth_response body))
        → attempt.network.later ≡ []
        → attempt.network.last ≡ []
        → length body < 2 ^ 32
        → w.network.online ≡ false
        → is_empty w.network.pending_username ≡ true
        → w.network.read_buffer ≡ []
        → Shows
            (on_login_requested q ec ssl attempt username password w)
            id
            name
            (map (λ g. record { id = g.id; name = g.name }) groups)
  unfolding on_login_requested call_login call on_signals on_signal set_public_key
  on_login_requested-Shows attempt username password id name groups w up answer later last fits down
        idle empty =
      let key = w.crypto.ecdh_keypair.public_key in
      let before = set_public_key key w.network in
      let done =
        connect_and_login_accepted q lawful attempt.network username password key id name groups
          before up answer later last fits empty in
      let news = accepted_signals username password key id name groups before down idle in
      let left = record w {
        network = logged_in q lawful id name groups (asking q lawful username password key before);
        last_password = password;
        login_dialog = connecting w.login_dialog;
        status = text "logging in as " ++ username ++ text "...";
      } in
      rw (done, news) (on_auth_success-Shows ssl attempt.new_pin id name left)
