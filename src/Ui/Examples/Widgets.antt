-- ===== src/Ui/Examples/Widgets.antt =====
-- Versions, the configuration and the chat in use.
use nullchat.Base.{
  List, ℕ, ◌<◌, ◌≡◌, ◌⊎◌, ◌↔◌, refl, Str, text, true, false, none, some, ◌||◌, eqb, if◌then◌else◌,
  arith, [], ◌∷◌, ◌++◌,
}
use nullchat.Base.Int.{ℤ, pos}
use nullchat.Qt.Sample.{sample as qt, sample-IsQt as qt-IsQt}
use nullchat.Ui.Version.{is_newer_version}
use nullchat.Ui.Version.Numbers.{version_text, fits, is_newer_version-version_text}
use nullchat.Ui.Config.{
  Directories, Files, IsToInt, save_config, server_port, server_port-save_config,
}
use nullchat.Ui.Chat.{message, html_of}
use nullchat.Ui.Chat.Visible.{visible, visible-html_of}
use nullchat.Ui.ContactList.{no_contacts}
use nullchat.Ui.ContactList.Shown.{Update, adds, increments, update_all, label_of}
use nullchat.Ui.ContactList.Counted.{text_of, agree_all, label_of-update_all}
use nullchat.Ui.Examples.{bob}
use nullchat.Ui.Examples

is_newer_version-version_text_example :
    let result = is_newer_version (version_text 1 0 1) (version_text 1 10 0) in
    ((result ≡ some true) ↔ (
      (fits 1 0 1 1 10 0 ≡ true)
      × ((1 < 1) ⊎ (◌≡◌ {A = ℕ} 1 1 × ((0 < 10) ⊎ (◌≡◌ {A = ℕ} 0 10 × (1 < 0)))))))
    × ((result ≡ none) ↔ (fits 1 0 1 1 10 0 ≡ false))
is_newer_version-version_text_example = is_newer_version-version_text 1 0 1 1 10 0

abbrev places : Directories
places = record { application = 1 ∷ []; app_config = 2 ∷ []; home = 3 ∷ [] }

abbrev no_files : Files
no_files path = none

-- `toInt` with a default at the sample values.
unfoldable to_int_or : qt.Value → ℤ → ℤ
unfolding qt
to_int_or [] default = default
to_int_or (kind ∷ rest) default =
    if eqb kind 2 || eqb kind 3 then qt.to_integer (kind ∷ rest) else default

to_int_or-IsToInt : IsToInt qt to_int_or
unfolding qt to_int_or
to_int_or-IsToInt = record {
  to_int_or-integer = λ n default fits. refl;
  to_int_or-empty = λ k default. refl;
}

-- A port that does not fit.
server_port-save_config_example :
    (server_port qt to_int_or places
        (save_config qt true places (qt.insert qt.empty "port" (qt.integer (pos 73983))) no_files)
      ≡ 8447)
    × (server_port qt to_int_or places (save_config qt true places qt.empty no_files) ≡ 8447)
    × (server_port qt to_int_or places (λ p. none) ≡ 8447)
server_port-save_config_example =
    server_port-save_config qt qt-IsQt to_int_or to_int_or-IsToInt places qt.empty no_files 73983
      (omega arith) refl

-- Escaping that leaves nothing.
abbrev blank : Str → Str
blank s = []

abbrev no_time : ℤ → Str
no_time t = []

visible-html_of_example :
    visible false (html_of no_time blank (message (Examples.message bob)))
    ≡ text "[" ++ ([] ++ (text "] &lt;" ++ ([] ++ (text "&gt; " ++ []))))
visible-html_of_example =
    visible-html_of no_time blank (λ t. refl) (λ s. refl) (Examples.message bob)

-- A contact that is renamed while a message waits, and one that was never added.
abbrev updated : List Update
updated = adds bob bob ∷ increments bob ∷ increments (5 ∷ []) ∷ adds bob (7 ∷ []) ∷ []

label_of-update_all_example :
    label_of (update_all updated no_contacts).items bob
    ≡ text_of (agree_all updated (λ id. none) bob)
label_of-update_all_example = label_of-update_all updated bob
