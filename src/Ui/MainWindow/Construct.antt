-- ===== src/Ui/MainWindow/Construct.antt =====
-- src/client/ui/MainWindow.cpp: the window as its constructor leaves it, and a start of the client after
-- a run that has ended.
use nullchat.Base.{
  ℕ, Str, text, ==_refl, is_empty, ◌≡◌, refl, ap, ◌∙◌, Bool, true, false, none, some, List, [], ◌∷◌,
  ◌++◌, any, Result, Result-cases, inl, inr, ok, ◌>>=◌, arith,
}
use nullchat.Qt.{Qt}
use nullchat.Crypto.{OpenSsl, IsOpenSsl, Error, sha256}
use nullchat.Crypto.Ecdh.{EcKeys}
use nullchat.Crypto.Rsa.{RsaCalls}
use nullchat.Client.{new_client}
use nullchat.ClientCrypto.{new_client_crypto}
use nullchat.P2P.{new_manager}
use nullchat.Store.{load_blob}
use nullchat.Store.Restart.{File, new_store, delete_store, new_store-delete_store}
use nullchat.Ui.ContactList.{no_contacts}
use nullchat.Ui.MemberList.{no_members}
use nullchat.Ui.MainWindow.{MainWindow}
use nullchat.Ui.MainWindow
use nullchat.Ui.MainWindow.Login.{Attempt, session_text, save_session, offer_pin, on_auth_success}
use nullchat.Ui.MainWindow.Unlock.{Answer, enters, asking, unlock, on_splash_finished}
use nullchat.Ui.MainWindow.Session.{
  has_colon, split_session-session_text, session_text-ne, sha256-ne, opened-save_blob,
  store-switch_to_app, load_blob-on_auth_success, ends, unlock_fails,
}
use nullchat.Ui.MainWindow.Offline.{auto_login_offline}

-- The members that have been made, with the splash as the page that is shown. The lists, the chat, the
-- texts of the page and the dialog do not exist yet; `drawn` keys have been made by the process, and
-- `opens` says whether the file of the store can be opened.
unfoldable pub new_window : (ec : EcKeys) → RsaCalls ec → ℕ → Bool → File → Result Error MainWindow
unfolding new_client_crypto new_store
new_window ec rsa drawn opens file = do
  crypto ← new_client_crypto ec rsa drawn
  ok (record {
    user_id = [];
    username = [];
    current_channel_id = [];
    network = new_client;
    store = new_store opens file;
    channel_list = no_contacts;
    member_list = no_members;
    chat = [];
    chat_header = [];
    placeholder = [];
    title = [];
    is_null = false;
    last_password = [];
    crypto = crypto;
    p2p = none;
    login_dialog = none;
    status = text "connecting...";
    page = MainWindow.splash;
    built = false;
    update_banner = none;
    undefined = false;
  })

-- A window that has been constructed has what is in the file, and no dialog.
new_window_lem :
    (ec : EcKeys) (rsa : RsaCalls ec) (drawn : ℕ) (opens : Bool) (file : File) (v : MainWindow)
    → new_window ec rsa drawn opens file ≡ ok v
    → (v.store ≡ new_store opens file) × (v.login_dialog ≡ none)
unfolding new_window
new_window_lem ec rsa drawn opens file v made =
    elim (Result-cases (new_client_crypto ec rsa drawn)) [
      | inl (why, thrown) ↦ ground arith
      | inr (crypto, done) ↦ ground arith
    ]

module _ (q : Qt) (ec : EcKeys) (ssl : OpenSsl) where
  opened-on_auth_success :
      (pin user_id username : Str) (w : MainWindow)
      → w.store.opened ≡ true
      → (on_auth_success ssl (some pin) user_id username w).store.opened ≡ true
  unfolding on_auth_success offer_pin save_session
  opened-on_auth_success pin user_id username w open' =
      let known = record w {
        user_id = user_id;
        username = username;
        is_null = w.network.is_null;
        p2p = some (new_manager w.crypto);
      } in
      ap (λ s. s.opened) (store-switch_to_app (offer_pin ssl (some pin) known))
      ∙ grind (arith, opened-save_blob)

  unlock_offline :
      (pin username password : Str) (attempt : Attempt) (w : MainWindow)
      → is_empty pin ≡ false
      → has_colon username ≡ false
      → attempt.network.connects ≡ false
      → w.login_dialog ≡ none
      → let (progress, w') =
          unlock q ec ssl
            (session_text username password)
            (sha256 ssl pin)
            (enters pin attempt ∷ [])
            w in
        (progress ≡ asking) × (w'.undefined ≡ true)
  unfolding unlock
  unlock_offline pin username password attempt w given clean offline unset =
      let saved = session_text username password in
      let read = (split_session-session_text username password).1 clean in
      let (failed, unsound) =
        auto_login_offline q ec ssl saved username password attempt w read offline unset in
      let same = ==_refl (sha256 ssl pin) in rw (given, same, failed) (refl, unsound)

module _ (q : Qt) (ec : EcKeys) (rsa : RsaCalls ec) (ssl : OpenSsl) where
  -- A run of the client logs in, in an opened store without a session, and saves a session under a PIN;
  -- the user name has no colon. The store is closed and the client is started again on its file. If the
  -- network cannot connect then, the right PIN, after any number of wrong or empty ones, is no login:
  -- the slot for the error reads the pointer to the login dialog, which nothing has set, and behind it
  -- the PIN is asked for again.
  pub on_splash_finished-new_window :
      (lawful : IsOpenSsl ssl) (pin user_id username : Str) (w v : MainWindow) (file : File)
      (drawn : ℕ) (wrong : List Answer) (attempt : Attempt)
      → w.store.opened ≡ true
      → load_blob (text "session") w.store ≡ []
      → is_empty w.last_password ≡ false
      → is_empty pin ≡ false
      → has_colon username ≡ false
      → new_window ec rsa drawn true
          (delete_store (on_auth_success ssl (some pin) user_id username w).store file)
        ≡ ok v
      → any (ends ssl (sha256 ssl pin)) wrong ≡ false
      → attempt.network.connects ≡ false
      → let (progress, v') = on_splash_finished q ec ssl (wrong ++ enters pin attempt ∷ []) v in
        (progress ≡ asking) × (v'.undefined ≡ true)
  unfolding on_splash_finished
  on_splash_finished-new_window lawful pin user_id username w v file drawn wrong attempt open' new
        password given clean made fails offline =
      let left = (on_auth_success ssl (some pin) user_id username w).store in
      let (stored, unset) = new_window_lem ec rsa drawn true (delete_store left file) v made in
      let on = opened-on_auth_success q ec ssl pin user_id username w open' in
      let kept : v.store ≡ left = stored ∙ new_store-delete_store left file on in
      let (session, hash) =
        load_blob-on_auth_success ssl pin user_id username w open' new password given in
      let saved = session_text username w.last_password in
      let started = record v { status = text "connecting..." } in
      let skip =
        unlock_fails q ec ssl saved (sha256 ssl pin) wrong (enters pin attempt ∷ []) started
          fails in
      let found = ap (load_blob (text "session")) kept ∙ session in
      let guarded = ap (load_blob (text "pin_hash")) kept ∙ hash in
      let filled = session_text-ne username w.last_password in
      let unsound =
        unlock_offline q ec ssl pin username w.last_password attempt started given clean offline
          unset in
      rw (found, guarded, filled, sha256-ne ssl lawful pin, skip) unsound
