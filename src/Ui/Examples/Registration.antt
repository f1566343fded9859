-- ===== src/Ui/Examples/Registration.antt =====
-- A registration with a PIN.
use nullchat.Base.{◌≡◌, refl, text, ◌<◌, ◌^◌, true, some, [], ◌∷◌, length, arith}
use nullchat.Qt.Sample.{sample as qt, sample-IsQt as qt-IsQt}
use nullchat.Crypto.Sample.{sample as ssl}
use nullchat.Crypto.SampleKeys.{ec}
use nullchat.Protocol.{auth_response, make_packet, serialize}
use nullchat.Store.{load_blob}
use nullchat.Client.Register.{register_response}
use nullchat.Ui.MainWindow.Login.{Attempt, session_text, on_register_requested}
use nullchat.Ui.MainWindow.Unlock.{split_session}
use nullchat.Ui.MainWindow.Shows.{Shows}
use nullchat.Ui.MainWindow.Registered.{on_register_requested-Shows}
use nullchat.Ui.Examples.{bob, window}

abbrev attempt : Attempt
attempt = record {
  network = record {
    connects = true;
    error_string = [];
    answer = some (serialize qt (make_packet auth_response (register_response qt qt-IsQt)));
    later = [];
    last = [];
  };
  new_pin = some (7 ∷ []);
}

short : length (register_response qt qt-IsQt) < 2 ^ 32
unfolding qt text
short = omega arith

unsaved : load_blob (text "session") window.store ≡ []
unfolding load_blob
unsaved = refl

on_register_requested-Shows_example :
    let w' = on_register_requested qt ec ssl attempt bob (5 ∷ []) (9 ∷ []) window in
    let saved = load_blob (text "session") w'.store in
    Shows w' [] [] []
    × (saved ≡ session_text [] (5 ∷ []))
    × (split_session saved ≡ some ([], 5 ∷ []))
on_register_requested-Shows_example =
    on_register_requested-Shows qt qt-IsQt ec ssl attempt bob (5 ∷ []) (9 ∷ []) (7 ∷ []) window refl
      refl refl refl short refl refl refl refl refl refl refl unsaved
