-- ===== src/Ui/MainWindow/Session.antt =====
-- The saved session: what `onAuthSuccess` writes for a PIN, and what the next start makes of it.
use nullchat.Base.{
  ◌≡◌, ◌↔◌, refl, ap, ◌∙◌, Str, text, Option-cases, Str-discrete, ◌==◌, ==_refl, is_empty, Bool,
  true, false, not, ◌&&◌, some, List, [], ◌∷◌, ◌++◌, any, eqb, arith, inl, inr,
}
use nullchat.Qt.{Qt}
use nullchat.Crypto.{OpenSsl, IsOpenSsl, sha256}
use nullchat.Crypto.Digest.{sha256_lem}
use nullchat.Crypto.Ecdh.{EcKeys}
use nullchat.P2P.{new_manager}
use nullchat.Store.{MessageStore, load_blob, save_blob}
use nullchat.Store.Contents.{load_blob-save_blob}
use nullchat.Ui.ContactList.{select_first, no_contacts}
use nullchat.Ui.MainWindow.{MainWindow, contact_selected}
use nullchat.Ui.MainWindow.Login.{
  Attempt, session_text, switch_to_app, add_groups, save_session, offer_pin, call_login,
  on_auth_success,
}
use nullchat.Ui.MainWindow.Unlock.{
  Answer, cancels, enters, logged_in, split_session, auto_login, unlock, on_splash_finished,
}

abbrev pub has_colon : Str → Bool
has_colon s = any (λ c. eqb c b':') s

-- A session is read back as it was saved if and only if the user name has no colon.
pub split_session-session_text :
    (username password : Str)
    → (split_session (session_text username password) ≡ some (username, password))
      ↔ (has_colon username ≡ false)
unfolding split_session session_text
split_session-session_text [] password = (λ read. refl, λ clean. refl)
split_session-session_text (c ∷ s) password = ground (arith, split_session-session_text s password)

pub session_text-ne : (username password : Str) → is_empty (session_text username password) ≡ false
unfolding session_text
session_text-ne [] password = refl
session_text-ne (c ∷ s) password = refl

pub sha256-ne : (ssl : OpenSsl) → IsOpenSsl ssl → (s : Str) → is_empty (sha256 ssl s) ≡ false
sha256-ne ssl lawful s = ground (arith, (sha256_lem ssl lawful s s).0)

-- The blobs of a session that was saved in an opened store.
keys_apart : (text "pin_hash" == text "session") ≡ false
unfolding text Str-discrete
keys_apart = refl

pub opened-save_blob :
    (key value : Str) (s : MessageStore) → s.opened ≡ true → (save_blob key value s).opened ≡ true
unfolding save_blob
opened-save_blob key value s open' = ground arith

pub store-switch_to_app : (w : MainWindow) → (switch_to_app w).store ≡ w.store
unfolding switch_to_app contact_selected
store-switch_to_app w =
    elim (Option-cases (select_first (add_groups w.network.initial_groups no_contacts))) [
      | inl nothing ↦ rw (switch_to_app, nothing) refl
      | inr (id, chosen) ↦ rw (switch_to_app, chosen) refl
    ]

module _ (ssl : OpenSsl) where
  -- After a login in an opened store without a session, a PIN that is entered for a password that is
  -- known leaves the hash of the PIN, and the name with the password in clear.
  pub load_blob-on_auth_success :
      (pin user_id username : Str) (w : MainWindow)
      → w.store.opened ≡ true
      → load_blob (text "session") w.store ≡ []
      → is_empty w.last_password ≡ false
      → is_empty pin ≡ false
      → let saved = (on_auth_success ssl (some pin) user_id username w).store in
        (load_blob (text "session") saved ≡ session_text username w.last_password)
        × (load_blob (text "pin_hash") saved ≡ sha256 ssl pin)
  unfolding on_auth_success offer_pin save_session
  load_blob-on_auth_success pin user_id username w open' new password given =
      let known = record w {
        user_id = user_id;
        username = username;
        is_null = w.network.is_null;
        p2p = some (new_manager w.crypto);
      } in
      let text' = session_text username w.last_password in
      let one = save_blob (text "pin_hash") (sha256 ssl pin) w.store in
      let on : one.opened ≡ true =
        opened-save_blob (text "pin_hash") (sha256 ssl pin) w.store open' in
      let stored = store-switch_to_app (save_session ssl pin known) in
      let session = load_blob-save_blob (text "session") (text "session") text' one on in
      let hash = load_blob-save_blob (text "pin_hash") (text "session") text' one on in
      let pinned =
        load_blob-save_blob (text "pin_hash") (text "pin_hash") (sha256 ssl pin) w.store open' in
      let again = ==_refl (text "session") in
      let same = ==_refl (text "pin_hash") in
      (
        rw (new, password, given, stored, session, again) refl,
        rw (new, password, given, stored, hash, keys_apart, pinned, same) refl,
      )

-- Whether an answer ends the asking: a cancelled dialog, or the right PIN.
abbrev pub ends : OpenSsl → Str → Answer → Bool
ends ssl saved_pin_hash cancels = true
ends ssl saved_pin_hash (enters pin attempt) =
    not (is_empty pin) && (sha256 ssl pin == saved_pin_hash)

module _ (q : Qt) (ec : EcKeys) (ssl : OpenSsl) where
  pub unlock_fails :
      (saved saved_pin_hash : Str) (wrong answers : List Answer) (w : MainWindow)
      → any (ends ssl saved_pin_hash) wrong ≡ false
      → unlock q ec ssl saved saved_pin_hash (wrong ++ answers) w
        ≡ unlock q ec ssl saved saved_pin_hash answers w
  unfolding unlock
  unlock_fails saved saved_pin_hash [] answers w fails = refl
  unlock_fails saved saved_pin_hash (cancels ∷ wrong) answers w fails = absurd (ground arith)
  unlock_fails saved saved_pin_hash (enters pin attempt ∷ wrong) answers w fails =
      ground (arith, unlock_fails saved saved_pin_hash wrong answers w)

  auto_login-session_text :
      (username password : Str) (attempt : Attempt) (w : MainWindow)
      → has_colon username ≡ false
      → auto_login q ec ssl (session_text username password) attempt w
        ≡ call_login q ec ssl attempt username password
            (record w { status = text "auto-login as " ++ username ++ text "..." })
  unfolding auto_login
  auto_login-session_text username password attempt w clean =
      rw (auto_login, (split_session-session_text username password).1 clean) refl

  unlock_right :
      (pin username password : Str) (answers : List Answer) (attempt : Attempt) (w : MainWindow)
      → is_empty pin ≡ false
      → has_colon username ≡ false
      → let started = record w { status = text "auto-login as " ++ username ++ text "..." } in
        let (done, w') = call_login q ec ssl attempt username password started in
        done ≡ true
        → unlock q ec ssl
            (session_text username password)
            (sha256 ssl pin)
            (enters pin attempt ∷ answers)
            w
          ≡ (logged_in, w')
  unfolding unlock
  unlock_right pin username password answers attempt w given clean done =
      let same = ==_refl (sha256 ssl pin) in
      rw (given, same, auto_login-session_text username password attempt w clean, done) refl

  -- A session that was saved in an opened store under a PIN unlocks the next start: after any number
  -- of wrong or empty PINs the right one logs in with the user name and the password of the first
  -- login, and if that succeeds, the start is done. The user name must not contain a colon.
  pub on_splash_finished-on_auth_success :
      (lawful : IsOpenSsl ssl) (pin user_id username : Str) (w v : MainWindow)
      (wrong answers : List Answer) (attempt : Attempt)
      → w.store.opened ≡ true
      → load_blob (text "session") w.store ≡ []
      → is_empty w.last_password ≡ false
      → is_empty pin ≡ false
      → has_colon username ≡ false
      → v.store ≡ (on_auth_success ssl (some pin) user_id username w).store
      → any (ends ssl (sha256 ssl pin)) wrong ≡ false
      → let started = record v { status = text "auto-login as " ++ username ++ text "..." } in
        let (done, v') = call_login q ec ssl attempt username w.last_password started in
        done ≡ true
        → on_splash_finished q ec ssl (wrong ++ enters pin attempt ∷ answers) v ≡ (logged_in, v')
  unfolding on_splash_finished
  on_splash_finished-on_auth_success lawful pin user_id username w v wrong answers attempt open' new
        password given clean kept fails done =
      let (session, hash) =
        load_blob-on_auth_success ssl pin user_id username w open' new password given in
      let saved = session_text username w.last_password in
      let started = record v { status = text "connecting..." } in
      let skip =
        unlock_fails saved (sha256 ssl pin) wrong (enters pin attempt ∷ answers) started fails in
      let found = ap (load_blob (text "session")) kept ∙ session in
      let guarded = ap (load_blob (text "pin_hash")) kept ∙ hash in
      let filled = session_text-ne username w.last_password in
      let right =
        unlock_right pin username w.last_password answers attempt started given clean done in
      rw (found, guarded, filled, sha256-ne ssl lawful pin) (skip ∙ right)
