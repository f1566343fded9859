-- ===== src/Ui/MainWindow/Updates.antt =====
-- src/client/ui/MainWindow.cpp: the answer to the request of `checkForUpdate`.
use nullchat.Base.{Str, is_empty, Bool, true, ◌||◌, none, some, if◌then◌else◌}
use nullchat.Qt.{Qt}
use nullchat.Qt.Json.{string_at}
use nullchat.Ui.Version.{is_newer_version, app_version}
use nullchat.Ui.MainWindow.{MainWindow}

-- `failed` says that the reply has an error, `body` is what `readAll` gives.
unfoldable pub on_update_reply : Qt → Bool → Str → MainWindow → MainWindow
on_update_reply q failed body w =
    let tag = string_at q (q.parse body) "tag_name" in
    if failed || is_empty tag then w else elim (is_newer_version app_version tag) [
      | none ↦ record w { undefined = true }
      | some newer ↦ if newer then record w { update_banner = some tag } else w
    ]
