-- ===== src/Base/Map.antt =====
-- `std::unordered_map<std::string, V>` as an association list: `find`, `m[k] = v` and `erase`.
use mathlib.Core.Path.{◌≡◌, refl}
use mathlib.Core.Option.{Option, none, some}
use mathlib.Core.List.{List, [], ◌∷◌}
use native.Mathlib.Omega.{arith}
use nullchat.Base.Tests.{if◌then◌else◌}
use nullchat.Base.Text.{Str, ◌==◌}

abbrev pub Map {ℓ} : Type ℓ → Type ℓ
Map V = List (Str × V)

module _ {ℓ} {V : Type ℓ} where
  unfoldable pub find : Str → Map V → Option V
  find k [] = none
  find k ((j, v) ∷ m) = if k == j then some v else find k m

  unfoldable pub insert : Str → V → Map V → Map V
  insert k v [] = (k, v) ∷ []
  insert k v ((j, w) ∷ m) = if k == j then (k, v) ∷ m else (j, w) ∷ insert k v m

  unfoldable pub erase : Str → Map V → Map V
  erase k [] = []
  erase k ((j, w) ∷ m) = let rest = erase k m in if k == j then rest else (j, w) ∷ rest

  pub find-insert :
      (j k : Str) (v : V) (m : Map V)
      → find j (insert k v m) ≡ (if j == k then some v else find j m)
  unfolding find insert
  find-insert j k v [] = refl
  find-insert j k v ((i, w) ∷ m) = ground (arith, find-insert j k v m)

  pub find-erase :
      (j k : Str) (m : Map V) → find j (erase k m) ≡ (if j == k then none else find j m)
  unfolding find erase
  find-erase j k [] = ground arith
  find-erase j k ((i, w) ∷ m) = ground (arith, find-erase j k m)
