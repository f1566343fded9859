-- ===== src/Ui/Version/Numbers.antt =====
-- Versions that are written with three numbers.
use nullchat.Base.{
  ℕ, zero, suc, ◌+◌, ◌/◌, ◌%◌, ◌<◌, ◌≡◌, ◌⊎◌, ◌↔◌, refl, sym, ap, ◌∙◌, ◌^◌, Str, Bool, true, false,
  not, ◌&&◌, none, some, [], ◌∷◌, ◌++◌, append_assoc, ltb, arith, Bool-cases, inl, inr,
}
use nullchat.Base.Int.{pos}
use nullchat.Ui.MainWindow.{digits, to_string}
use nullchat.Ui.Version.{
  is_digit, scan_digits, scan_number, scan_sign, scan_int, scan_dot, scan, parse, is_newer_version,
}

-- The release `maj.min.pat`, as `std::to_string` writes its numbers.
abbrev pub version_text : ℕ → ℕ → ℕ → Str
version_text maj min pat =
    b'v'
    ∷ (to_string (pos maj) ++ b'.' ∷ (to_string (pos min) ++ b'.' ∷ (to_string (pos pat) ++ [])))

scan_digits-digits :
    (fuel n : ℕ) (rest : Str)
    → n < fuel
    → scan_digits 0 (digits fuel n ++ rest) ≡ scan_digits n rest
unfolding digits scan_digits
scan_digits-digits zero n rest h = absurd (omega arith)
scan_digits-digits (suc fuel) n rest h = elim (Bool-cases (ltb n 10)) [
  | inl small ↦ rw small (ground arith)
  | inr large ↦
      let assoc = append_assoc (digits fuel (n / 10)) ((b'0' + n % 10) ∷ []) rest in
      let front = scan_digits-digits fuel (n / 10) ((b'0' + n % 10) ∷ rest) (ground arith) in
      rw (large, assoc, front) (ground arith)
]

-- The text of a number starts with a digit.
digits_head :
    (fuel n : ℕ) → n < fuel → (c : ℕ) × (s : Str) × (digits fuel n ≡ c ∷ s) × (is_digit c ≡ true)
unfolding digits
digits_head zero n h = absurd (omega arith)
digits_head (suc fuel) n h = elim (Bool-cases (ltb n 10)) [
  | inl small ↦ (b'0' + n, [], rw small refl, ground arith)
  | inr large ↦
      let (c, s, e, d) = digits_head fuel (n / 10) (ground arith) in
      (c, s ++ (b'0' + n % 10) ∷ [], rw (large, e) refl, d)
]

-- A number is read back up to a byte that is no digit.
abbrev stops : Str → Bool
stops [] = true
stops (c ∷ s) = not (is_digit c)

scan_digits-stops : (n : ℕ) (rest : Str) → stops rest ≡ true → scan_digits n rest ≡ (n, rest)
unfolding scan_digits
scan_digits-stops n [] h = refl
scan_digits-stops n (c ∷ s) h = ground arith

scan_int_head :
    (c : ℕ) (s : Str)
    → is_digit c ≡ true
    → scan_int (c ∷ s) ≡ some (pos (scan_digits 0 (c ∷ s)).0, (scan_digits 0 (c ∷ s)).1)
unfolding scan_int scan_sign scan_number
scan_int_head c s h = ground arith

scan_int-to_string :
    (n : ℕ) (rest : Str)
    → stops rest ≡ true
    → scan_int (to_string (pos n) ++ rest) ≡ some (pos n, rest)
unfolding to_string
scan_int-to_string n rest h =
    let (c, s, e, d) = digits_head (suc n) n (omega arith) in
    let head = ap (λ t. scan_int (t ++ rest)) e ∙ scan_int_head c (s ++ rest) d in
    let back =
      ap (λ t. scan_digits 0 (t ++ rest)) (sym e)
      ∙ (scan_digits-digits (suc n) n rest (omega arith) ∙ scan_digits-stops n rest h) in
    head ∙ ap (λ r. some (pos r.0, r.1)) back

pub parse-version_text :
    (maj min pat : ℕ)
    → parse (version_text maj min pat) ≡ record { maj = pos maj; min = pos min; pat = pos pat }
unfolding parse scan scan_dot
parse-version_text maj min pat =
    let third = scan_int-to_string pat [] refl in
    let second = scan_int-to_string min (b'.' ∷ (to_string (pos pat) ++ [])) refl in
    let first =
      scan_int-to_string maj (b'.' ∷ (to_string (pos min) ++ b'.' ∷ (to_string (pos pat) ++ [])))
        refl in
    rw (parse, scan, first, second, third) refl

-- Whether the six numbers are values of `int`.
abbrev pub fits : ℕ → ℕ → ℕ → ℕ → ℕ → ℕ → Bool
fits i j k l m n =
    ltb i (2 ^ 31)
    && ltb j (2 ^ 31)
    && ltb k (2 ^ 31)
    && ltb l (2 ^ 31)
    && ltb m (2 ^ 31)
    && ltb n (2 ^ 31)

-- On releases that are written with three numbers, `isNewerVersion` says that the second is newer if and
-- only if all six numbers are below 2 ^ 31 and the second release is greater: its major number, or with
-- the same major number the minor one, or with both the same the patch. The result is undefined if and
-- only if one of the numbers is not below 2 ^ 31.
pub is_newer_version-version_text :
    (i j k l m n : ℕ)
    → let result = is_newer_version (version_text i j k) (version_text l m n) in
      ((result ≡ some true)
        ↔ ((fits i j k l m n ≡ true) × ((i < l) ⊎ ((i ≡ l) × ((j < m) ⊎ ((j ≡ m) × (k < n)))))))
      × ((result ≡ none) ↔ (fits i j k l m n ≡ false))
unfolding is_newer_version
is_newer_version-version_text i j k l m n =
    rw (is_newer_version, parse-version_text i j k, parse-version_text l m n)
      (ground arith, ground arith)
