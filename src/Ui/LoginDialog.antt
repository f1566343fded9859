-- ===== src/Ui/LoginDialog.antt =====
-- src/client/ui/LoginDialog.cpp: the buttons, and what they ask the window for. The texts of the
-- input fields are arguments, those of the user name and of the invite trimmed.
use nullchat.Base.{
  Str, text, is_empty, Bool, true, not, ◌||◌, Option, none, some, List, [], ◌∷◌, ◌++◌,
  if◌then◌else◌,
}

-- `warnings` are the message boxes that have been shown, oldest first.
pub record LoginDialog : Type 0 where
  pub login_enabled : Bool
  pub register_enabled : Bool
  pub login_label : Str
  pub warnings : List Str

abbrev pub new_dialog : LoginDialog
new_dialog = record {
  login_enabled = true;
  register_enabled = true;
  login_label = text "login";
  warnings = [];
}

unfoldable pub set_connecting : Bool → LoginDialog → LoginDialog
set_connecting connecting d = record d {
  login_enabled = not connecting;
  register_enabled = not connecting;
  login_label = if connecting then text "connecting..." else text "login";
}

unfoldable pub set_error : Str → LoginDialog → LoginDialog
set_error error d = record d { warnings = d.warnings ++ error ∷ [] }

-- What the dialog emits.
pub data Request : Type 0 where
  login_requested : Str → Str → Request
  register_requested : Str → Str → Str → Request

unfoldable pub on_login : Str → Str → LoginDialog → Option Request × LoginDialog
unfolding set_error
on_login username password d =
    if is_empty username || is_empty password
    then (none, set_error (text "fill in all fields") d)
    else (some (login_requested username password), d)

unfoldable pub on_register : Str → Str → Str → LoginDialog → Option Request × LoginDialog
unfolding set_error
on_register username password invite d =
    if is_empty username || is_empty password || is_empty invite
    then (none, set_error (text "fill in all fields (invite password required)") d)
    else (some (register_requested username password invite), d)
