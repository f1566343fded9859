-- ===== src/Ui/Widgets/Panels.antt =====
-- The constructors of src/client/ui/ServerBar.cpp, ContactList.cpp, MemberList.cpp and ChatWidget.cpp. The
-- list of the contacts and the browser of the chat are modelled as ContactList and as lines; here stand the
-- widgets around them. A panel has the name of the pointer that the window keeps.
use nullchat.Base.{text, true, false, some, ◌++◌}
use nullchat.Qt.Widgets.{
  Attributes, Widget, leaf, widget, end, add_widget, fresh, label, push_button, list_widget,
  text_browser, widget_class, any_alignment, align_center, align_top, box, tight, vertical,
  set_fixed_width, set_fixed_size,
}

abbrev null_btn : Attributes
null_btn = record (set_fixed_size 52 52 (fresh push_button "null_btn")) {
  label_text = text "N";
  style_sheet =
      text "QPushButton { background: #0a0a0a; color: #33ff33; font-weight: bold;"
      ++ text "border: 1px solid #33ff33; font-size: 20px; }"
      ++ text "QPushButton:hover { background: #1a1a1a; }";
}

abbrev add_btn : Attributes
add_btn = record (set_fixed_size 52 52 (fresh push_button "add_btn")) {
  label_text = text "+";
  style_sheet =
      text "QPushButton { background: #0a0a0a; color: #33ff33; font-size: 24px; font-weight: bold;"
      ++ text "border: 1px solid #1a1a1a; }"
      ++ text "QPushButton:hover { background: #1a1a1a; border-color: #33ff33; }";
}

-- The two buttons are connected to nothing.
abbrev pub server_bar : Widget
server_bar =
    widget
      (record (set_fixed_width 80 (fresh widget_class "server_bar")) {
        style_sheet = text "ServerBar { background: #0a0a0a; border-right: 1px solid #1a1a1a; }";
      })
      (record (box vertical) {
        alignment = align_top;
        margins = some (14, 14, 14, 14);
        spacing = some 10;
      })
      (add_widget (leaf null_btn) 0 align_center (add_widget (leaf add_btn) 0 align_center end))

-- The context menu of the list is the program's own.
abbrev pub channel_list : Widget
channel_list = widget (fresh widget_class "channel_list") (tight vertical) (
    add_widget (leaf (record (fresh list_widget "list") { custom_menu = true })) 0 any_alignment
      end)

abbrev pub chat_widget : Widget
chat_widget =
    let browser = record (fresh text_browser "browser") {
      opens_links = false;
      read_only = true;
      style_sheet =
          text "QTextBrowser { background: #0a0a0a; color: #33ff33; border: none;"
          ++ text "  font-family: 'JetBrains Mono', 'Liberation Mono', monospace;"
          ++ text "  font-size: 13px; }";
    } in
    widget (fresh widget_class "chat_widget") (tight vertical)
      (add_widget (leaf browser) 0 any_alignment end)

abbrev pub header : Attributes
header = record (fresh label "header") {
  label_text = text "> online (0)";
  style_sheet =
      text "font-weight: bold; opacity: 0.7; font-size: 11px;"
      ++ text "margin-bottom: 8px; color: #33ff33;";
}

-- The member list with the given header; the rows below it are those of MemberList.
abbrev pub member_list : Attributes → Widget
member_list header =
    let frame = record (set_fixed_width 200 (fresh widget_class "member_list")) {
      style_sheet = text "background: #0a0a0a; color: #33ff33; border-left: 1px solid #1a1a1a;";
    } in
    widget frame (record (box vertical) { alignment = align_top; margins = some (16, 16, 16, 16) })
      (add_widget (leaf header) 0 any_alignment end)
