-- ===== src/Ui/Examples/Restart.antt =====
-- A client that is started again without a network.
use nullchat.Base.{
  ◌≡◌, refl, arith, true, false, none, some, text, Str, [], ◌∷◌, any, Str-discrete, ok,
}
use nullchat.Qt.Sample.{sample as qt}
use nullchat.Crypto.{sha256}
use nullchat.Crypto.Sample.{sample as ssl, sample-IsOpenSsl as ssl-IsOpenSsl}
use nullchat.Crypto.Ecdh.{generate_ecdh_key_pair, pem_to_key, pem_to_public_key}
use nullchat.Crypto.Rsa.{generate_rsa_key_pair}
use nullchat.Crypto.SampleKeys.{ec, rsa}
use nullchat.ClientCrypto.{ClientCrypto, new_client_crypto}
use nullchat.Store.{load_blob}
use nullchat.Store.Restart.{File, new_store, delete_store}
use nullchat.Ui.MainWindow.{MainWindow}
use nullchat.Ui.MainWindow
use nullchat.Ui.MainWindow.Login.{Attempt, on_auth_success}
use nullchat.Ui.MainWindow.Unlock.{enters, asking, on_splash_finished}
use nullchat.Ui.MainWindow.Session.{ends}
use nullchat.Ui.MainWindow.Construct.{new_window, on_splash_finished-new_window}
use nullchat.Ui.Examples.{bob, window}

abbrev pin : Str
pin = 7 ∷ []

abbrev offline : Attempt
offline = record {
  network = record { connects = false; error_string = []; answer = none; later = []; last = [] };
  new_pin = none;
}

-- The password is 5.
abbrev first_run : MainWindow
first_run = record window { last_password = 5 ∷ [] }

abbrev no_file : File
no_file = record { messages = []; settings = [] }

abbrev left : File
left = delete_store (on_auth_success ssl (some pin) (3 ∷ []) bob first_run).store no_file

abbrev made_keys : ClientCrypto
made_keys = record {
  keypair = record { public_key = 2 ∷ []; private_key = 2 ∷ [] };
  ecdh_keypair = record { public_key = 3 ∷ []; private_key = 3 ∷ [] };
  shared_keys = [];
  keys_drawn = 4;
  random_drawn = 0;
}

abbrev second_run : MainWindow
second_run = record window {
  user_id = [];
  username = [];
  current_channel_id = [];
  store = new_store true left;
  crypto = made_keys;
  status = text "connecting...";
  page = MainWindow.splash;
  built = false;
}

constructs : new_window ec rsa 2 true left ≡ ok second_run
unfolding new_window new_client_crypto generate_rsa_key_pair generate_ecdh_key_pair pem_to_key
    pem_to_public_key rsa
constructs = ground arith

unsaved : load_blob (text "session") first_run.store ≡ []
unfolding load_blob
unsaved = refl

wrong : any (ends ssl (sha256 ssl pin)) (enters (8 ∷ []) offline ∷ []) ≡ false
unfolding sha256 ssl Str-discrete
wrong = refl

on_splash_finished-new_window_example :
    let answers = enters (8 ∷ []) offline ∷ enters pin offline ∷ [] in
    let (progress, v) = on_splash_finished qt ec ssl answers second_run in
    (progress ≡ asking) × (v.undefined ≡ true)
on_splash_finished-new_window_example =
    on_splash_finished-new_window qt ec rsa ssl ssl-IsOpenSsl pin (3 ∷ []) bob first_run second_run
      no_file 2 (enters (8 ∷ []) offline ∷ []) offline refl unsaved refl refl refl constructs wrong
      refl
