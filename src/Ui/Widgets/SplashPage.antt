-- ===== src/Ui/Widgets/SplashPage.antt =====
-- src/client/ui/ASCIISplash.cpp: the widgets of the constructor, and what `start`, the timer and
-- `setStatus` do to them.
use nullchat.Base.{
  ℕ, ◌+◌, Str, text, ◌≡◌, refl, false, some, ◌++◌, ltb, if◌then◌else◌, inl, inr, Bool-cases,
}
use nullchat.Qt.Widgets.{
  Attributes, Widget, leaf, widget, end, add_widget, add_spacing, add_stretch, fresh, label,
  progress_bar, widget_class, align_center, box, vertical, through, through_items, set_fixed_size,
  set_text,
}
use nullchat.Ui.Splash.{Splash, start, timeout}
use nullchat.Ui.Widgets.Literals.{ascii_logo}

abbrev logo : Attributes
logo = record (fresh label "logo") {
  label_text = ascii_logo;
  font = some (text "JetBrains Mono", 9);
  style_sheet = text "color: #33ff33;";
}

abbrev title : Attributes
title = record (fresh label "title") {
  label_text = text "nullchat";
  alignment = align_center;
  style_sheet =
      text "font-size: 42px; font-weight: bold; letter-spacing: 2px;"
      ++ text "color: #33ff33; margin-top: 20px;";
}

abbrev pub subtitle : Attributes
subtitle = record (fresh label "subtitle") {
  label_text = text "connecting...";
  alignment = align_center;
  style_sheet = text "opacity: 0.7; font-size: 14px; margin-top: 8px; color: #33ff33;";
}

-- The range of the bar is from 0 to 100.
abbrev pub progress : Attributes
progress = record (set_fixed_size 300 8 (fresh progress_bar "progress")) {
  text_visible = false;
  style_sheet =
      text "QProgressBar { background: #1a1a1a; border: none; border-radius: 4px; }"
      ++ text "QProgressBar::chunk { background: #33ff33; border-radius: 4px; }";
}

-- The splash with the given text and bar.
abbrev pub page_with : Attributes → Attributes → Widget
page_with status bar =
    widget
      (record (fresh widget_class "splash") {
        style_sheet = text "background: #0a0a0a; color: #33ff33;";
      })
      (record (box vertical) { alignment = align_center })
      (add_stretch (
        add_widget (leaf logo) 0 align_center (
          add_widget (leaf title) 0 align_center (
            add_spacing 8 (
              add_widget (leaf status) 0 align_center
                (add_spacing 30 (add_widget (leaf bar) 0 align_center (add_stretch end))))))))

-- What the constructor makes.
abbrev pub splash_page : Widget
splash_page = page_with subtitle progress

abbrev set_value : ℕ → Widget → Widget
set_value n page = through "progress" (λ a. record a { value = some n }) page

unfoldable pub status_widgets : Str → Widget → Widget
status_widgets status page = set_text "subtitle" status page

unfoldable pub start_widgets : Widget → Widget
start_widgets page = set_value 0 page

-- One period of the timer, from the state of the splash before it.
unfoldable pub timeout_widgets : Splash → Widget → Widget
timeout_widgets s page =
    if s.running then (if ltb 100 (s.step + 5) then page else set_value (s.step + 5) page) else page

-- The widgets as the record tells them, and the text that was set last.
unfoldable pub page_of : Str → Splash → Widget
page_of status s =
    page_with (record subtitle { label_text = status }) (record progress { value = some s.value })

-- The bar and the text of the splash are the record's: `start` on the widgets of the constructor
-- shows that it is connecting, with an empty bar; `start`, each period of the timer, whether or not it runs or is the last, and
-- `setStatus` change the widgets as they change the record.
pub page_of-timeout :
    (status status' : Str) (s : Splash)
    → (page_of (text "connecting...") (start s) ≡ start_widgets splash_page)
      × (page_of status (start s) ≡ start_widgets (page_of status s))
      × (page_of status (timeout s) ≡ timeout_widgets s (page_of status s))
      × (page_of status' s ≡ status_widgets status' (page_of status s))
unfolding page_of start start_widgets timeout timeout_widgets status_widgets through through_items
page_of-timeout status status' s = (
  refl,
  refl,
  elim (Bool-cases s.running) [
    | inl runs ↦ elim (Bool-cases (ltb 100 (s.step + 5))) [
      | inl last ↦ rw (runs, last) refl
      | inr more ↦ rw (runs, more) refl
    ]
    | inr stopped ↦ rw stopped refl
  ],
  refl,
)
