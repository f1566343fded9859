-- ===== src/Ui/Widgets/AppPage.antt =====
-- src/client/ui/MainWindow.cpp: the widgets that `buildApp` makes, and the calls on them in the slots and in
-- the answer of `checkForUpdate`. The rows of the lists and the lines of the chat are modelled elsewhere.
use nullchat.Base.{ℕ, Str, text, true, false, some, ◌++◌}
use nullchat.Base.Int.{pos}
use nullchat.Qt.Widgets.{
  Attributes, Widget, leaf, widget, end, add_widget, fresh, label, push_button, text_edit,
  widget_class, any_alignment, box, tight, horizontal, vertical, through, set_fixed_width,
  set_fixed_height, set_style_sheet, set_text, set_placeholder_text,
}
use nullchat.Ui.MainWindow.{to_string}
use nullchat.Ui.Widgets.Panels.{server_bar, channel_list, chat_widget, header, member_list}
use nullchat.Ui.Widgets.Literals.{app_stylesheet}

-- The window itself, as it first is.
abbrev pub main_window : Attributes
main_window = record (fresh widget_class "main_window") {
  style_sheet = app_stylesheet;
  size = some (1280, 720);
  min_width = some 900;
  min_height = some 600;
}

abbrev server_title : Attributes
server_title = record (set_fixed_height 48 (fresh label "server_title")) {
  label_text = text "  # nullsec";
  style_sheet =
      text "font-weight: bold; font-size: 14px; padding-left: 12px; color: #33ff33;"
      ++ text "border-bottom: 1px solid #1a1a1a; background: #0a0a0a;";
}

abbrev channel_container : Widget
channel_container =
    let frame = record (set_fixed_width 250 (fresh widget_class "channel_container")) {
      style_sheet = text "border-right: 1px solid #1a1a1a;";
    } in
    let style =
      text "ContactList { background: #0a0a0a; }"
      ++ text "QListWidget { background: #0a0a0a; color: #33ff33; border: none;"
      ++ text "  font-size: 13px; }"
      ++ text "QListWidget::item { padding: 8px 12px; }"
      ++ text "QListWidget::item:hover { background: #111111; }" in
    widget frame (record (tight vertical) { spacing = some 0 })
      (add_widget (leaf server_title) 0 any_alignment
        (add_widget (set_style_sheet "channel_list" style channel_list) 1 any_alignment end))

abbrev pub chat_header : Attributes
chat_header = record (set_fixed_height 48 (fresh label "chat_header")) {
  label_text = text "  > select a channel";
  style_sheet =
      text "font-weight: bold; font-size: 13px; padding-left: 16px; color: #33ff33;"
      ++ text "border-bottom: 1px solid #1a1a1a; background: #0a0a0a;";
}

abbrev pub update_banner : Attributes
update_banner = record (set_fixed_height 0 (fresh label "update_banner")) {
  style_sheet =
      text "background: #0d2a0d; color: #33ff33; padding: 8px 16px;"
      ++ text " font-size: 12px; border-bottom: 1px solid #1a5a1a;";
  opens_links = true;
  visible = false;
}

abbrev pub message_input : Attributes
message_input = set_fixed_height 40 (record (fresh text_edit "message_input") {
  max_height = some 60;
  placeholder = text "> type a message...";
})

abbrev send_btn : Attributes
send_btn = record (set_fixed_height 40 (fresh push_button "send_btn")) { label_text = text "send" }

abbrev input_container : Attributes → Widget
input_container input =
    widget (fresh widget_class "input_container")
      (record (box horizontal) { margins = some (12, 8, 12, 12) })
      (add_widget (leaf input) 0 any_alignment (add_widget (leaf send_btn) 0 any_alignment end))

abbrev chat_container : Attributes → Attributes → Attributes → Widget
chat_container title banner input =
    widget (fresh widget_class "chat_container") (record (tight vertical) { spacing = some 0 })
      (add_widget (leaf title) 0 any_alignment (
        add_widget (leaf banner) 0 any_alignment (
          add_widget (set_style_sheet "chat_widget" (text "background: #0a0a0a;") chat_widget) 1
            any_alignment (add_widget (input_container input) 0 any_alignment end))))

-- The page with the given header, banner, input field and header of the member list.
abbrev pub page_with : Attributes → Attributes → Attributes → Attributes → Widget
page_with title banner input members =
    let style = text "ServerBar { background: #0a0a0a; border-right: 1px solid #1a1a1a; }" in
    widget (fresh widget_class "app_page") (record (tight horizontal) { spacing = some 0 })
      (add_widget (set_style_sheet "server_bar" style server_bar) 0 any_alignment (
        add_widget channel_container 0 any_alignment (
          add_widget (chat_container title banner input) 1 any_alignment
            (add_widget (member_list members) 0 any_alignment end))))

-- What `buildApp` makes.
abbrev pub app_page : Widget
app_page = page_with chat_header update_banner message_input header

-- The widgets of the slot of `contactSelected`.
unfoldable pub select_widgets : Str → Widget → Widget
select_widgets name page =
    set_placeholder_text "message_input" (text "> message #" ++ name ++ text "...")
      (set_text "chat_header" (text "  > #" ++ name) page)

-- `MemberList::updateCount`
unfoldable pub count_text : ℕ → Str
unfolding to_string
count_text n = text "> online (" ++ to_string (pos n) ++ text ")"

unfoldable pub count_widgets : ℕ → Widget → Widget
unfolding count_text
count_widgets n page = set_text "header" (count_text n) page

abbrev banner_text : Str → Str
banner_text tag =
    text "<a href=\"https://github.com/Nullsec1-234/nullchat/releases/latest\""
    ++ text " style=\"color: #33ff33; text-decoration: none;\">"
    ++ text "update available: "
    ++ tag
    ++ text "  > click here to download</a>"

-- The widgets of the answer that there is a newer release.
unfoldable pub announce_widgets : Str → Widget → Widget
announce_widgets tag page =
    through "update_banner"
      (λ a.
        set_fixed_height 32
          (record a { rich_text = true; label_text = banner_text tag; visible = true }))
      page
