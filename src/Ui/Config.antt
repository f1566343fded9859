-- ===== src/Ui/Config.antt =====
-- src/client/ui/MainWindow.cpp: the configuration file with the server's address. The file system is
-- a function from paths to contents, none where a file cannot be opened; `toString` and `toInt` of
-- `QJsonValue` with a default are parameters.
use nullchat.Base.{
  ℕ, String, ◌-◌, ◌%◌, ◌^◌, ◌<◌, ◌≡◌, refl, Str, text, ◌==◌, ==_refl, Bool, true, Option, none,
  some, List, [], ◌∷◌, ◌++◌, if◌then◌else◌,
}
use nullchat.Base.Int.{ℤ, pos, negsuc}
use nullchat.Qt.{Qt, IsQt}

-- The directories of the program, of its configuration and of the user.
pub record Directories : Type 0 where
  pub application : Str
  pub app_config : Str
  pub home : Str

unfoldable pub first_path : Directories → Str
first_path d = d.app_config ++ text "/nullchat.json"

unfoldable pub config_paths : Directories → List Str
unfolding first_path
config_paths d =
    first_path d
    ∷ (d.home ++ text "/.nullchat.json")
    ∷ (d.application ++ text "/nullchat.json")
    ∷ []

abbrev pub Files : Type 0
Files = Str → Option Str

-- `static_cast<uint16_t>`
unfoldable pub cast_uint16 : ℤ → ℕ
cast_uint16 (pos n) = n % 2 ^ 16
cast_uint16 (negsuc n) = 2 ^ 16 - 1 - n % 2 ^ 16

module _ (q : Qt) where
  -- The loop over the paths.
  unfoldable pub load_first : List Str → Files → q.Object
  load_first [] files = q.empty
  load_first (p ∷ paths) files = elim (files p) [
    | none ↦ load_first paths files
    | some body ↦ q.parse body
  ]

  unfoldable pub load_config : Directories → Files → q.Object
  unfolding load_first config_paths
  load_config d files = load_first (config_paths d) files

  -- `writable` says whether the file at the first path can be opened for writing.
  unfoldable pub save_config : Bool → Directories → q.Object → Files → Files
  save_config writable d cfg files =
      if writable then (λ p. if p == first_path d then some (q.print cfg) else files p) else files

  module _ (to_string_or : q.Value → Str → Str) where
    unfoldable pub server_host : Directories → Files → Str
    unfolding load_config
    server_host d files = to_string_or (q.at (load_config d files) "server") (text "38.134.182.152")

  module _ (to_int_or : q.Value → ℤ → ℤ) where
    unfoldable pub server_port : Directories → Files → ℕ
    unfolding load_config cast_uint16
    server_port d files = cast_uint16 (to_int_or (q.at (load_config d files) "port") (pos 8447))

  -- A configuration that is saved at the first path is the one that is loaded next, whatever files
  -- there were before.
  pub load_config-save_config :
      IsQt q
      → (d : Directories) (cfg : q.Object) (files : Files)
      → load_config d (save_config true d cfg files) ≡ cfg
  unfolding load_config load_first config_paths save_config
  load_config-save_config lawful d cfg files =
      rw (load_config, config_paths, load_first, save_config, ==_refl (first_path d))
        (lawful.parse-print cfg)

-- `QJsonValue::toInt` with a default: an integer that is an `int` is read, and where there is no value
-- the default is.
pub record IsToInt (q : Qt) (to_int_or : q.Value → ℤ → ℤ) : Type 0 where
  pub to_int_or-integer :
      (n : ℕ) (default : ℤ) → n < 2 ^ 31 → to_int_or (q.integer (pos n)) default ≡ pos n
  pub to_int_or-empty : (k : String) (default : ℤ) → to_int_or (q.at q.empty k) default ≡ default

module _ (q : Qt) (lawful : IsQt q) (to_int_or : q.Value → ℤ → ℤ) (law : IsToInt q to_int_or) where
  -- A port that is saved in the configuration, an `int` that is not negative, is the one that is used
  -- next if it is less than 2 ^ 16, and otherwise the rest that 2 ^ 16 leaves of it. A configuration that
  -- is saved without a port, and a computer without any of the three files, lead to the port 8447.
  pub server_port-save_config :
      (d : Directories) (cfg : q.Object) (files : Files) (n : ℕ)
      → n < 2 ^ 31
      → q.at cfg "port" ≡ q.at q.empty "port"
      → let with_port = q.insert cfg "port" (q.integer (pos n)) in
        (server_port q to_int_or d (save_config q true d with_port files) ≡ n % 2 ^ 16)
        × (server_port q to_int_or d (save_config q true d cfg files) ≡ 8447)
        × (server_port q to_int_or d (λ p. none) ≡ 8447)
  unfolding server_port cast_uint16 load_config load_first config_paths
  server_port-save_config d cfg files n fits absent =
      let with_port = q.insert cfg "port" (q.integer (pos n)) in
      let read : q.at with_port "port" ≡ q.integer (pos n) =
        lawful.at-insert cfg "port" "port" (q.integer (pos n)) in
      (
        rw
            (
              load_config-save_config q lawful d with_port files,
              read,
              law.to_int_or-integer n (pos 8447) fits,
            )
            refl,
        rw
            (
              load_config-save_config q lawful d cfg files,
              absent,
              law.to_int_or-empty "port" (pos 8447),
            )
            refl,
        rw (law.to_int_or-empty "port" (pos 8447)) refl,
      )
