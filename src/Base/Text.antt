-- ===== src/Base/Text.antt =====
-- `std::string` and `std::vector<uint8_t>` as lists of bytes, and their equality.
use Prim.Native.Nat.{ℕ}
use Prim.Native.Char.{code}
use Prim.Native.String.{String}
use mathlib.Core.Path.{◌≡◌}
use mathlib.Core.Logic.{ite}
use mathlib.Core.Bool.{Bool, true, false}
use mathlib.Core.List.{List, [], ◌∷◌}
use native.Mathlib.Omega.{arith}
use native.Mathlib.Decide.{ℕ_discrete}

abbrev pub Str : Type 0
Str = List ℕ

abbrev pub codes : String → Str
codes String.[] = []
codes (String.◌∷◌ c s) = code c ∷ codes s

-- A string literal of the source. It stays shut, so that statements show the literal.
unfoldable pub text : String → Str
text s = codes s

-- Shut in proofs, where a split on `s == t` yields the equation or its negation.
unfoldable pub Str-discrete : Discrete Str
unfolding ℕ_discrete
Str-discrete = hlevel ℕ_discrete

infix 50 ◌==◌
abbrev pub ◌==◌ : Str → Str → Bool
s == t = ite (Str-discrete s t) true false

pub ==_refl : (s : Str) → (s == s) ≡ true
==_refl s = ground arith

abbrev pub is_empty : Str → Bool
is_empty [] = true
is_empty (_ ∷ _) = false
