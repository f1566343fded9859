-- ===== src/Ui/MainWindow/Unlock.antt =====
-- src/client/ui/MainWindow.cpp: `onSplashFinished`, which logs in with a saved session once the PIN
-- has been entered, and shows the login dialog otherwise.
use nullchat.Base.{
  Str, text, ◌==◌, is_empty, Bool, false, not, ◌&&◌, Option, none, some, List, [], ◌∷◌, ◌++◌, eqb,
  if◌then◌else◌,
}
use nullchat.Qt.{Qt}
use nullchat.Crypto.{OpenSsl, sha256}
use nullchat.Crypto.Ecdh.{EcKeys}
use nullchat.Store.{load_blob}
use nullchat.Ui.LoginDialog.{new_dialog}
use nullchat.Ui.MainWindow.{MainWindow}
use nullchat.Ui.MainWindow
use nullchat.Ui.MainWindow.Login.{Attempt, call_login}

-- The two parts of a saved session: up to the first colon, and behind it.
unfoldable pub split_session : Str → Option (Str × Str)
split_session [] = none
split_session (c ∷ s) =
    let rest = split_session s in
    if eqb c b':'
    then some ([], s)
    else elim rest [ none ↦ none | some (user, pass) ↦ some (c ∷ user, pass) ]

-- What the user does when asked for the PIN. The attempt is for an entered PIN that unlocks.
pub data Answer : Type 0 where
  cancels : Answer
  enters : Str → Attempt → Answer

-- Where `onSplashFinished` stands: the PIN dialog waits for an answer, the login has succeeded, or
-- the login dialog is shown.
pub data Progress : Type 0 where
  asking logged_in dialog_shown : Progress

module _ (q : Qt) (ec : EcKeys) (ssl : OpenSsl) where
  -- The login with the parts of a saved session, if it has two.
  unfoldable pub auto_login : Str → Attempt → MainWindow → Bool × MainWindow
  unfolding call_login split_session
  auto_login saved attempt w = elim (split_session saved) [
    | none ↦ (false, w)
    | some (user, pass) ↦
        call_login q ec ssl attempt user pass
          (record w { status = text "auto-login as " ++ user ++ text "..." })
  ]

  -- The loop that asks for the PIN.
  unfoldable pub unlock : Str → Str → List Answer → MainWindow → Progress × MainWindow
  unfolding auto_login
  unlock saved saved_pin_hash [] w = (asking, w)
  unlock saved saved_pin_hash (cancels ∷ answers) w =
      (dialog_shown, record w { login_dialog = some new_dialog; page = MainWindow.login })
  unlock saved saved_pin_hash (enters pin attempt ∷ answers) w =
      let (done, w') = auto_login saved attempt w in
      let again = unlock saved saved_pin_hash answers w in
      let retried = unlock saved saved_pin_hash answers w' in
      if is_empty pin
      then again
      else if not (sha256 ssl pin == saved_pin_hash)
      then again
      else if done
      then (logged_in, w')
      else retried

  unfoldable pub on_splash_finished : List Answer → MainWindow → Progress × MainWindow
  unfolding unlock
  on_splash_finished answers w =
      let saved = load_blob (text "session") w.store in
      let saved_pin_hash = load_blob (text "pin_hash") w.store in
      let started = record w { status = text "connecting..." } in
      if not (is_empty saved) && not (is_empty saved_pin_hash)
      then unlock saved saved_pin_hash answers started
      else (
        dialog_shown,
        record started { login_dialog = some new_dialog; page = MainWindow.login },
      )
