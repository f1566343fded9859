-- ===== src/Ui/MainWindow/Offline.antt =====
-- A start with a saved session and without a network.
use nullchat.Base.{
  append_assoc, ◌≡◌, refl, ap, ◌∙◌, Str, text, is_empty, true, false, Option, none, some, List, [],
  ◌∷◌, ◌++◌, All, length, drop, drop-append_self, arith, Bool-cases, inl, inr,
}
use nullchat.Qt.{Qt}
use nullchat.Crypto.{OpenSsl}
use nullchat.Crypto.Ecdh.{EcKeys}
use nullchat.Client.{Client, Signal, disconnected, auth_error, set_public_key}
use nullchat.Client.Receive.{on_error, on_disconnected}
use nullchat.Client.Connect.{Network, connect_and_login, connect_and_send}
use nullchat.Ui.MainWindow.{MainWindow}
use nullchat.Ui.MainWindow.Login.{Attempt, call_login, call, on_signals, on_signal, on_auth_error}
use nullchat.Ui.MainWindow.Unlock.{split_session, auto_login}

module _ (q : Qt) (ec : EcKeys) (ssl : OpenSsl) where
  -- What a call emits when the network cannot connect: notices, and an error at the end.
  abbrev Notice : Signal → Type 0
  Notice disconnected = Unit
  Notice (auth_error error) = Unit
  Notice _ = ⊥

  emitted_offline :
      (net : Network) (username password key : Str) (c : Client)
      → net.connects ≡ false
      → let (done, c') = connect_and_login q net username password key c in
        (done ≡ false)
        × ((before : List Signal) × (error : Str) × All Notice before
            × (c'.signals ≡ c.signals ++ (before ++ auth_error error ∷ [])))
  unfolding connect_and_login connect_and_send on_error on_disconnected
  emitted_offline net username password key c offline =
      let why = net.error_string in
      let said = text "Connection failed: " ++ why in
      elim (Bool-cases c.online) [
        | inl up ↦ elim (Bool-cases (is_empty c.pending_username)) [
          | inl idle ↦ (
            rw offline refl,
            (
              disconnected ∷ [],
              said,
              (tt, tt),
              rw (offline, up, idle)
                  (append_assoc c.signals (disconnected ∷ []) (auth_error said ∷ [])),
            ),
          )
          | inr waits ↦ (
            rw offline refl,
            (
              disconnected ∷ auth_error why ∷ [],
              said,
              (tt, (tt, tt)),
              rw (offline, up, waits)
                  (ap (λ s. s ++ auth_error said ∷ [])
                      (append_assoc c.signals (disconnected ∷ []) (auth_error why ∷ []))
                    ∙ append_assoc c.signals (disconnected ∷ auth_error why ∷ [])
                        (auth_error said ∷ [])),
            ),
          )
        ]
        | inr down ↦ elim (Bool-cases (is_empty c.pending_username)) [
          | inl idle ↦ (rw offline refl, ([], said, tt, rw (offline, down, idle) refl))
          | inr waits ↦ (
            rw offline refl,
            (
              auth_error why ∷ [],
              said,
              (tt, tt),
              rw (offline, down, waits)
                  (append_assoc c.signals (auth_error why ∷ []) (auth_error said ∷ [])),
            ),
          )
        ]
      ]

  undefined-on_signals :
      (pin : Option Str) (before : List Signal) (error : Str) (w : MainWindow)
      → All Notice before
      → w.login_dialog ≡ none
      → (on_signals ec ssl pin (before ++ auth_error error ∷ []) w).undefined ≡ true
  unfolding on_signals on_signal on_auth_error
  undefined-on_signals pin [] error w notices unset = ground arith
  undefined-on_signals pin (disconnected ∷ before) error w notices unset =
      undefined-on_signals pin before error w notices.1 unset
  undefined-on_signals pin (auth_error e ∷ before) error w notices unset =
      let after : on_auth_error e w ≡ record w { undefined = true } = simp (on_auth_error, unset) in
      ap (λ u. (on_signals ec ssl pin (before ++ auth_error error ∷ []) u).undefined) after
      ∙ undefined-on_signals pin before error (record w { undefined = true }) notices.1 unset
  undefined-on_signals pin (_ ∷ before) error w notices unset = absurd notices.0

  -- Where the network cannot connect, no login dialog has been made, and the session has a colon, the
  -- login with the saved session fails, and the slot for its error reads the pointer to the dialog
  -- before it is set.
  pub auto_login_offline :
      (saved user password : Str) (attempt : Attempt) (w : MainWindow)
      → split_session saved ≡ some (user, password)
      → attempt.network.connects ≡ false
      → w.login_dialog ≡ none
      → let (done, w') = auto_login q ec ssl saved attempt w in
        (done ≡ false) × (w'.undefined ≡ true)
  unfolding auto_login call_login call set_public_key
  auto_login_offline saved user password attempt w read offline unset =
      let key = w.crypto.ecdh_keypair.public_key in
      let before = set_public_key key w.network in
      let answered = connect_and_login q attempt.network user password key before in
      let (failed, (ss, error, notices, grown)) =
        emitted_offline attempt.network user password key before offline in
      let new =
        ap (drop (length before.signals)) grown
        ∙ drop-append_self before.signals (ss ++ auth_error error ∷ []) in
      let left = record w {
        network = answered.1;
        status = text "auto-login as " ++ user ++ text "...";
      } in
      rw (auto_login, read)
        (failed, rw new (undefined-on_signals attempt.new_pin ss error left notices unset))
