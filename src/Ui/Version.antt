-- ===== src/Ui/Version.antt =====
-- src/client/ui/MainWindow.cpp: `isNewerVersion`, with the `%d.%d.%d` that it reads by `sscanf`. To
-- read a number that does not fit into an `int` is undefined in C; the result is then none.
pub mod Order
pub mod Numbers
use nullchat.Base.{
  ℕ, zero, suc, ◌+◌, ◌*◌, ◌-◌, Str, text, Bool, true, false, not, ◌&&◌, ◌||◌, Option, none, some,
  [], ◌∷◌, leb, ltb, eqb, ◌^◌, if◌then◌else◌,
}
use nullchat.Base.Int.{ℤ, pos, negsuc, leb_ℤ, eq_ℤ}

pub record Version : Type 0 where
  pub maj : ℤ
  pub min : ℤ
  pub pat : ℤ

abbrev pub is_digit : ℕ → Bool
is_digit c = leb b'0' c && leb c b'9'

-- `isspace` in the C locale.
abbrev pub is_space : ℕ → Bool
is_space c = eqb c 32 || leb 9 c && leb c 13

-- The digits that follow, behind those that make `n`, and what is left.
unfoldable pub scan_digits : ℕ → Str → ℕ × Str
scan_digits n [] = (n, [])
scan_digits n (c ∷ s) = if is_digit c then scan_digits (10 * n + (c - b'0')) s else (n, c ∷ s)

unfoldable pub negate : ℕ → ℤ
negate zero = pos 0
negate (suc n) = negsuc n

-- A number needs a digit.
unfoldable pub scan_number : Bool → Str → Option (ℤ × Str)
unfolding scan_digits negate
scan_number minus [] = none
scan_number minus (c ∷ s) =
    let (n, rest) = scan_digits 0 (c ∷ s) in
    if is_digit c then some ((if minus then negate n else pos n), rest) else none

unfoldable pub scan_sign : Str → Option (ℤ × Str)
unfolding scan_number
scan_sign [] = none
scan_sign (c ∷ s) =
    if eqb c b'-'
    then scan_number true s
    else if eqb c b'+'
    then scan_number false s
    else scan_number false (c ∷ s)

-- `%d`, which skips white space first.
unfoldable pub scan_int : Str → Option (ℤ × Str)
unfolding scan_sign
scan_int [] = none
scan_int (c ∷ s) = let rest = scan_int s in if is_space c then rest else scan_sign (c ∷ s)

unfoldable pub scan_dot : Str → Option Str
scan_dot [] = none
scan_dot (c ∷ s) = if eqb c b'.' then some s else none

-- `sscanf` stops at the first directive that does not match; later numbers stay 0.
unfoldable pub scan : Str → Version
unfolding scan_int scan_dot
scan s = elim (scan_int s) [
  | none ↦ record { maj = pos 0; min = pos 0; pat = pos 0 }
  | some (maj, s1) ↦ elim (scan_dot s1) [
    | none ↦ record { maj = maj; min = pos 0; pat = pos 0 }
    | some s2 ↦ elim (scan_int s2) [
      | none ↦ record { maj = maj; min = pos 0; pat = pos 0 }
      | some (min, s3) ↦ elim (scan_dot s3) [
        | none ↦ record { maj = maj; min = min; pat = pos 0 }
        | some s4 ↦ elim (scan_int s4) [
          | none ↦ record { maj = maj; min = min; pat = pos 0 }
          | some (pat, s5) ↦ record { maj = maj; min = min; pat = pat }
        ]
      ]
    ]
  ]
]

unfoldable pub parse : Str → Version
unfolding scan
parse [] = scan []
parse (c ∷ s) = if eqb c b'v' then scan s else scan (c ∷ s)

abbrev pub gtb_ℤ : ℤ → ℤ → Bool
gtb_ℤ a b = not (leb_ℤ a b)

-- Whether `y` is greater than `x`, or `rest` where they are the same.
abbrev pub greater_or : ℤ → ℤ → Bool → Bool
greater_or x y rest = if not (eq_ℤ y x) then gtb_ℤ y x else rest

-- Whether the numbers that have been read are values of `int`.
abbrev pub is_int : ℤ → Bool
is_int (pos n) = ltb n (2 ^ 31)
is_int (negsuc n) = ltb n (2 ^ 31)

abbrev pub is_ints : Version → Bool
is_ints v = is_int v.maj && is_int v.min && is_int v.pat

unfoldable pub is_newer_version : Str → Str → Option Bool
unfolding parse
is_newer_version current latest =
    let cur = parse current in
    let lat = parse latest in
    if is_ints cur && is_ints lat
    then some (greater_or cur.maj lat.maj (greater_or cur.min lat.min (gtb_ℤ lat.pat cur.pat)))
    else none

unfoldable pub app_version : Str
app_version = text "v1.0.1"
