-- ===== src/Ui/Widgets/Literals.antt =====
-- The raw string literals of src/client/ui: the logo of LoginDialog.cpp and of ASCIISplash.cpp, and
-- the style sheet of MainWindow.cpp.
use nullchat.Base.{String, Str, text, List, [], ◌∷◌, ◌++◌}

-- The literal starts and each of its lines ends with a line feed.
abbrev raw_lines : List String → Str
raw_lines [] = b'\n' ∷ []
raw_lines (l ∷ ls) = b'\n' ∷ text l ++ raw_lines ls

abbrev pub logo_art : Str
logo_art = raw_lines (
    ";lddddol:.      lxWW0" ∷ "         cxXWWWWWWWWWWWW0l. dNWWX,"
    ∷ "       dNWWXx;        ;dXWWWWNd ;" ∷ "     ,XWW0,              KWWWWX"
    ∷ "    cWWWo              xWWNodNWN" ∷ "   ;NWWd              dWWNo   'XWN"
    ∷ "  dWWk              dNWNo      ;WWK" ∷ "  0WW:            'LNWWx        NWW;"
    ∷ " xWWo           ;KWWx          xWWo" ∷ "  XWX         '0WW0'          xWWWi"
    ∷ "  :WW0     kNWX;             cWWWx" ∷ "   ;XWNkNWXc               .xWWWO"
    ∷ "    'NWWWWd              :kNWNKo" ∷ "     oXWW0NNWWK0xddxk0WWWW0c c"
    ∷ "     NWW0.  : ' :o0XNNNNWKo," ∷ "    cNXk              'd" ∷ "       l               l"
    ∷ "        :" ∷ "                                #nullsec" ∷ [])

abbrev pub ascii_logo : Str
ascii_logo = logo_art

abbrev pub app_stylesheet : Str
app_stylesheet = raw_lines (
    "QMainWindow, QWidget {" ∷ "  background: #0a0a0a;" ∷ "  color: #33ff33;"
    ∷ "  font-family: 'JetBrains Mono', 'Liberation Mono', monospace;" ∷ "  font-size: 13px;" ∷ "}"
    ∷ "QTextEdit {" ∷ "  background: #0d0d0d;" ∷ "  color: #33ff33;"
    ∷ "  border: 1px solid #1a1a1a;" ∷ "  padding: 10px;"
    ∷ "  font-family: 'JetBrains Mono', 'Liberation Mono', monospace;" ∷ "  font-size: 13px;" ∷ "}"
    ∷ "QTextEdit:focus {" ∷ "  border-color: #33ff33;" ∷ "}" ∷ "QPushButton {"
    ∷ "  background: #0a0a0a;" ∷ "  color: #33ff33;" ∷ "  border: 1px solid #33ff33;"
    ∷ "  padding: 8px 16px;" ∷ "  font-family: 'JetBrains Mono', 'Liberation Mono', monospace;"
    ∷ "  font-size: 12px;" ∷ "}" ∷ "QPushButton:hover { background: #1a1a1a; }"
    ∷ "QPushButton:pressed { background: #2a2a2a; }" ∷ "QListWidget {" ∷ "  background: #0a0a0a;"
    ∷ "  color: #33ff33;" ∷ "  border: none;" ∷ "  outline: none;"
    ∷ "  font-family: 'JetBrains Mono', 'Liberation Mono', monospace;" ∷ "  font-size: 13px;" ∷ "}"
    ∷ "QListWidget::item { padding: 8px 12px; }"
    ∷ "QListWidget::item:hover { background: #111111; }"
    ∷ "QListWidget::item:selected { background: #1a1a1a; color: #33ff33; }"
    ∷ "QScrollBar:vertical {" ∷ "  background: #0a0a0a;" ∷ "  width: 6px;" ∷ "}"
    ∷ "QScrollBar::handle:vertical {" ∷ "  background: #1a1a1a;" ∷ "  min-height: 30px;" ∷ "}"
    ∷ "QScrollBar::add-line, QScrollBar::sub-line { height: 0; }"
    ∷ "QScrollBar:horizontal { height: 0; }" ∷ [])
