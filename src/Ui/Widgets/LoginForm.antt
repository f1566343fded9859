-- ===== src/Ui/Widgets/LoginForm.antt =====
-- src/client/ui/LoginDialog.cpp: the widgets of the constructor, and `setConnecting` on its buttons.
use nullchat.Base.{Str, text, ◌≡◌, refl, Bool, not, some, ◌++◌, if◌then◌else◌}
use nullchat.Qt.Widgets.{
  Attributes, Widget, leaf, widget, end, add_widget, add_spacing, add_stretch, fresh, label,
  push_button, line_edit, widget_class, password_echo, any_alignment, align_center, box, tight,
  horizontal, vertical, through, set_text, set_enabled,
}
use nullchat.Ui.LoginDialog.{LoginDialog, new_dialog, set_connecting}
use nullchat.Ui.Widgets.Literals.{logo_art}

-- The style sheet of the three input fields.
abbrev input_style : Str
input_style =
    text "QLineEdit { background: #0a0a0a; color: #33ff33; border: 1px solid #1a1a1a;"
    ++ text "  padding: 12px; font-size: 14px; font-family: 'JetBrains Mono', monospace; }"

abbrev pub username_input : Attributes
username_input = record (fresh line_edit "username_input") {
  placeholder = text "username";
  style_sheet = input_style;
}

abbrev pub password_input : Attributes
password_input = record (fresh line_edit "password_input") {
  placeholder = text "password";
  echo_mode = password_echo;
  style_sheet = input_style;
}

abbrev pub invite_input : Attributes
invite_input = record (fresh line_edit "invite_input") {
  placeholder = text "invite password (required)";
  echo_mode = password_echo;
  style_sheet = input_style;
}

abbrev pub login_btn : Attributes
login_btn = record (fresh push_button "login_btn") {
  label_text = text "login";
  style_sheet =
      text "QPushButton { background: #0a0a0a; color: #33ff33; border: 1px solid #33ff33;"
      ++ text "  padding: 10px; font-weight: bold; font-family: 'JetBrains Mono', monospace; }"
      ++ text "QPushButton:hover { background: #1a1a1a; }"
      ++ text "QPushButton:disabled { color: #1a5a1a; border-color: #1a5a1a; }";
}

abbrev pub register_btn : Attributes
register_btn = record (fresh push_button "register_btn") {
  label_text = text "register";
  style_sheet =
      text "QPushButton { background: #0a0a0a; color: #33ff33; border: 1px solid #1a1a1a;"
      ++ text "  padding: 10px; font-weight: bold; font-family: 'JetBrains Mono', monospace; }"
      ++ text "QPushButton:hover { background: #1a1a1a; }"
      ++ text "QPushButton:disabled { color: #1a5a1a; border-color: #1a5a1a; }";
}

-- `form`, with the fields and the row of buttons.
abbrev pub form_of : Attributes → Attributes → Widget
form_of login register =
    widget (record (fresh widget_class "form") { max_width = some 350 }) (box vertical)
      (add_widget (leaf username_input) 0 any_alignment (
        add_widget (leaf password_input) 0 any_alignment (
          add_widget (leaf invite_input) 0 any_alignment (
            add_spacing 8 (
              add_widget
                (widget (fresh widget_class "btn_row") (tight horizontal) (
                  add_widget (leaf login) 0 any_alignment
                    (add_widget (leaf register) 0 any_alignment end)))
                0 any_alignment end)))))

abbrev logo_label : Attributes
logo_label = record (fresh label "logo_label") {
  label_text = logo_art;
  font = some (text "JetBrains Mono", 8);
  style_sheet = text "color: #33ff33;";
}

abbrev title : Attributes
title = record (fresh label "title") {
  label_text = text "nullchat";
  alignment = align_center;
  style_sheet = text "font-size: 28px; font-weight: bold; margin-bottom: 4px; color: #33ff33;";
}

abbrev subtitle : Attributes
subtitle = record (fresh label "subtitle") {
  label_text = text "nullsec";
  alignment = align_center;
  style_sheet = text "font-size: 12px; opacity: 0.6; margin-bottom: 24px; color: #33ff33;";
}

-- The dialog with the given buttons.
abbrev pub page_with : Attributes → Attributes → Widget
page_with login register =
    widget (fresh widget_class "login_dialog") (record (box vertical) { alignment = align_center })
      (add_stretch (
        add_widget (leaf logo_label) 0 align_center (
          add_widget (leaf title) 0 align_center (
            add_widget (leaf subtitle) 0 align_center
              (add_widget (form_of login register) 0 align_center (add_stretch end))))))

-- What the constructor makes.
abbrev pub login_page : Widget
login_page = page_with login_btn register_btn

unfoldable pub connecting_widgets : Bool → Widget → Widget
connecting_widgets connecting page =
    let label = if connecting then text "connecting..." else text "login" in
    set_text "login_btn" label
      (set_enabled "register_btn" (not connecting) (set_enabled "login_btn" (not connecting) page))

-- The dialog's widgets as its record tells them.
unfoldable pub page_of : LoginDialog → Widget
page_of d =
    page_with (record login_btn { enabled = d.login_enabled; label_text = d.login_label })
      (record register_btn { enabled = d.register_enabled })

page_of-new_dialog : page_of new_dialog ≡ login_page
unfolding page_of
page_of-new_dialog = refl

page_of-set_connecting :
    (b : Bool) (d : LoginDialog) → page_of (set_connecting b d) ≡ connecting_widgets b (page_of d)
unfolding page_of set_connecting connecting_widgets through
page_of-set_connecting b d = refl
