-- ===== src/Ui/Examples/Start.antt =====
-- A first login, and the next start with the PIN.
use nullchat.Base.{
  ◌≡◌, refl, arith, Str, text, ◌<◌, ◌^◌, true, false, none, some, List, [], ◌∷◌, ◌++◌, length, any,
  drop, ◌==◌, Str-discrete,
}
use nullchat.Base.Int.{pos}
use nullchat.Qt.Sample.{sample as qt, sample-IsQt as qt-IsQt}
use nullchat.Crypto.{sha256}
use nullchat.Store.{load_blob}
use nullchat.Crypto.Sample.{sample as ssl, sample-IsOpenSsl as ssl-IsOpenSsl}
use nullchat.Crypto.SampleKeys.{ec}
use nullchat.Protocol.{auth_response, create_group, group_info, make_packet, serialize, to_byte}
use nullchat.Database.Membership.{is_member}
use nullchat.Server.State.{Server, new_session, initial}
use nullchat.Server.Groups.{GroupInfo}
use nullchat.Server.Handlers.{login_response, handle_create_group}
use nullchat.Client.{new_client, set_public_key, group_created}
use nullchat.Client.Receive.{handle_packet}
use nullchat.Client.Connect.{Network}
use nullchat.Client.Login.{connect_and_login-login_response}
use nullchat.Ui.MainWindow.{MainWindow}
use nullchat.Ui.MainWindow.Login.{
  Attempt, call, call_login, on_signals, on_auth_success, switch_to_app, on_login_requested,
}
use nullchat.Ui.MainWindow.Unlock.{Answer, enters, logged_in, on_splash_finished}
use nullchat.Ui.MainWindow.Session.{ends, on_splash_finished-on_auth_success}
use nullchat.Ui.MainWindow.Slots.{
  Slot, IsShown, group_message_received, user_offline, send_message, slots,
}
use nullchat.Ui.MainWindow.Shows.{Shows}
use nullchat.Ui.MainWindow.LoggedIn.{on_login_requested-Shows}
use nullchat.Ui.MainWindow.Requests.{on_create_channel_requested}
use nullchat.Ui.MainWindow.Create.{
  request, answer_of, handle_create_group-on_create_channel_requested,
}
use nullchat.Ui.MainWindow.Start.{slots-switch_to_app-IsShown}
use nullchat.Ui.Examples.{bob, window, message}

abbrev groups : List GroupInfo
groups = record { id = 4 ∷ []; name = 6 ∷ []; member_ids = []; encrypted_symmetric_key = [] } ∷ []

-- The answer of the server.
abbrev answer : Str
answer = qt.print (login_response qt (3 ∷ []) bob (groups))

abbrev online : Network
online = record {
  connects = true;
  error_string = [];
  answer = some (serialize qt (make_packet auth_response answer));
  later = [];
  last = [];
}

abbrev attempt : Attempt
attempt = record { network = online; new_pin = none }

-- The password 5 with the PIN 7.
abbrev first_login : MainWindow
first_login = record window { last_password = 5 ∷ [] }

abbrev next_start : MainWindow
next_start = record window {
  store = (on_auth_success ssl (some (7 ∷ [])) (3 ∷ []) bob first_login).store;
}

short : length answer < 2 ^ 32
unfolding login_response qt text
short = omega arith

succeeds :
    let started = record next_start { status = text "auto-login as " ++ bob ++ text "..." } in
    (call_login qt ec ssl attempt bob (5 ∷ []) started).0 ≡ true
unfolding call_login call set_public_key
succeeds =
    (connect_and_login-login_response qt qt-IsQt online bob (5 ∷ []) [] (3 ∷ []) bob (groups)
      (set_public_key [] new_client) refl refl refl refl short refl).0

abbrev answers : List Answer
answers = enters [] attempt ∷ enters (8 ∷ []) attempt ∷ []

unsaved : load_blob (text "session") first_login.store ≡ []
unfolding load_blob
unsaved = refl

wrong : any (ends ssl (sha256 ssl (7 ∷ []))) answers ≡ false
unfolding sha256 ssl Str-discrete
wrong = refl

on_splash_finished-on_auth_success_example :
    let started = record next_start { status = text "auto-login as " ++ bob ++ text "..." } in
    on_splash_finished qt ec ssl (answers ++ enters (7 ∷ []) attempt ∷ []) next_start
    ≡ (logged_in, (call_login qt ec ssl attempt bob (5 ∷ []) started).1)
on_splash_finished-on_auth_success_example =
    on_splash_finished-on_auth_success qt ec ssl ssl-IsOpenSsl (7 ∷ []) (3 ∷ []) bob first_login
      next_start answers [] attempt refl unsaved refl refl refl refl wrong succeeds

abbrev events : List Slot
events =
    group_message_received (message bob) ∷ send_message bob (pos 1) (pos 2) ∷ user_offline bob ∷ []

slots-switch_to_app-IsShown_example : IsShown (slots qt (switch_to_app window) events)
slots-switch_to_app-IsShown_example = slots-switch_to_app-IsShown qt window events

on_login_requested-Shows_example :
    Shows
      (on_login_requested qt ec ssl attempt bob (5 ∷ []) window)
      (3 ∷ [])
      bob
      (record { id = 4 ∷ []; name = 6 ∷ [] } ∷ [])
on_login_requested-Shows_example =
    on_login_requested-Shows qt qt-IsQt ec ssl attempt bob (5 ∷ []) (3 ∷ []) bob (groups) window
      refl refl refl refl short refl refl refl

-- Session 0 of a server has logged in as 3.
abbrev server : Server
server =
    record (initial
      (record { users = []; groups = []; members = []; messages = []; uuids = 0; faults = [] })) {
        objects =
            λ h. record new_session { user_id = 3 ∷ []; username = bob; authenticated = true };
        created = 1;
      }

handle_create_group-on_create_channel_requested_example :
    let id = qt.uuid 0 in
    let asked = on_create_channel_requested qt (some (6 ∷ [])) window in
    let server' = handle_create_group qt 0 (request qt qt-IsQt (6 ∷ [])) server in
    let told =
      handle_packet qt (to_byte group_info) (answer_of qt qt-IsQt id (6 ∷ [])) asked.network in
    let news = drop (length asked.network.signals) told.signals in
    (asked.network.sent
      ≡ window.network.sent
        ++ serialize qt (make_packet create_group (request qt qt-IsQt (6 ∷ []))) ∷ [])
    × (any (λ g. g.id == id) server'.db.groups ≡ true)
    × (is_member server'.db.members id (3 ∷ []) ≡ true)
    × (server'.sent
        ≡ (0, serialize qt (make_packet group_info (answer_of qt qt-IsQt id (6 ∷ [])))) ∷ [])
    × (news ≡ group_created id (6 ∷ []) ∷ [])
    × (on_signals ec ssl none news (record asked { network = told })
        ≡ record asked { network = told })
handle_create_group-on_create_channel_requested_example =
    handle_create_group-on_create_channel_requested qt qt-IsQt ec ssl none 0 (6 ∷ []) server window
      refl refl refl refl refl
