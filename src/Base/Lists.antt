-- ===== src/Base/Lists.antt =====
-- Lists measured and cut by native numbers, under the library's names.
use Prim.Native.Nat.{ℕ, zero, suc, ◌+◌, ◌-◌, ◌≤◌, ◌<◌, min}
use mathlib.Core.Path.{◌≡◌, refl, ap}
use mathlib.Core.Bool.{Bool, false, ◌||◌}
use mathlib.Core.Option.{Option, none, some}
use mathlib.Core.List.{List, [], ◌∷◌, ◌++◌}
use native.Mathlib.Omega.{arith}
use nullchat.Base.Tests.{if◌then◌else◌}

module _ {ℓ} {A : Type ℓ} where
  abbrev pub length : List A → ℕ
  length [] = 0
  length (x ∷ xs) = suc (length xs)

  abbrev pub get_or : List A → ℕ → A → A
  get_or [] i d = d
  get_or (x ∷ xs) zero d = x
  get_or (x ∷ xs) (suc i) d = get_or xs i d

  abbrev pub take : ℕ → List A → List A
  take zero xs = []
  take (suc n) [] = []
  take (suc n) (x ∷ xs) = x ∷ take n xs

  abbrev pub drop : ℕ → List A → List A
  drop zero xs = xs
  drop (suc n) [] = []
  drop (suc n) (x ∷ xs) = drop n xs

  abbrev pub replicate : ℕ → A → List A
  replicate zero a = []
  replicate (suc n) a = a ∷ replicate n a

  -- A predicate on every item.
  abbrev pub All {κ} : (A → Type κ) → List A → Type κ
  All P [] = Unit
  All P (x ∷ xs) = P x × All P xs

  -- `any`, `filter` and the first hit, by a Boolean test.
  abbrev pub any : (A → Bool) → List A → Bool
  any p [] = false
  any p (x ∷ xs) = p x || any p xs

  abbrev pub filter : (A → Bool) → List A → List A
  filter p [] = []
  filter p (x ∷ xs) = let rest = filter p xs in if p x then x ∷ rest else rest

  abbrev pub find? : (A → Bool) → List A → Option A
  find? p [] = none
  find? p (x ∷ xs) = if p x then some x else find? p xs

  pub any-append : (p : A → Bool) (xs ys : List A) → any p (xs ++ ys) ≡ (any p xs || any p ys)
  any-append p [] ys = refl
  any-append p (x ∷ xs) ys = ground (arith, any-append p xs ys)

  pub All-append_one {κ} :
      (P : A → Type κ) (xs : List A) (x : A) → All P xs → P x → All P (xs ++ x ∷ [])
  All-append_one P [] x h p = (p, tt)
  All-append_one P (y ∷ xs) x h p = (h.0, All-append_one P xs x h.1 p)

  pub All-split {κ} : (P : A → Type κ) (xs ys : List A) → All P (xs ++ ys) → All P xs × All P ys
  All-split P [] ys h = (tt, h)
  All-split P (x ∷ xs) ys h = let (left, right) = All-split P xs ys h.1 in ((h.0, left), right)

  pub append-take-drop : (n : ℕ) (xs : List A) → take n xs ++ drop n xs ≡ xs
  append-take-drop zero xs = refl
  append-take-drop (suc n) [] = refl
  append-take-drop (suc n) (x ∷ xs) = ap (λ ys. x ∷ ys) (append-take-drop n xs)

  pub filter-append :
      (p : A → Bool) (xs ys : List A) → filter p (xs ++ ys) ≡ filter p xs ++ filter p ys
  filter-append p [] ys = refl
  filter-append p (x ∷ xs) ys = ground (arith, filter-append p xs ys)

  -- The first hit of two lists is that of the first one, if there is one.
  pub find?-append_none :
      (p : A → Bool) (xs ys : List A) → any p xs ≡ false → find? p (xs ++ ys) ≡ find? p ys
  find?-append_none p [] ys h = refl
  find?-append_none p (x ∷ xs) ys h = ground (arith, find?-append_none p xs ys)

  pub find?-none : (p : A → Bool) (xs : List A) → any p xs ≡ false → find? p xs ≡ none
  find?-none p [] h = refl
  find?-none p (x ∷ xs) h = ground (arith, find?-none p xs)

  -- No two items of a list are the same.
  abbrev pub Distinct : (A → A → Bool) → List A → Type 0
  Distinct same [] = Unit {0}
  Distinct same (x ∷ xs) = (any (same x) xs ≡ false) × Distinct same xs

  pub Distinct-append_one :
      (same : A → A → Bool)
      → ((a b : A) → same a b ≡ same b a)
      → (x : A) (xs : List A) → any (same x) xs ≡ false
      → Distinct same xs
      → Distinct same (xs ++ x ∷ [])
  Distinct-append_one same symm x [] h d = (refl, tt)
  Distinct-append_one same symm x (y ∷ ys) h d =
      ground (arith, symm x y, any-append (same y) ys (x ∷ []), Distinct-append_one same symm x ys)

  pub any-filter : (p r : A → Bool) (xs : List A) → any p xs ≡ false → any p (filter r xs) ≡ false
  any-filter p r [] h = refl
  any-filter p r (x ∷ xs) h = ground (arith, any-filter p r xs)

  pub Distinct-filter :
      (same : A → A → Bool) (r : A → Bool) (xs : List A)
      → Distinct same xs
      → Distinct same (filter r xs)
  Distinct-filter same r [] d = tt
  Distinct-filter same r (x ∷ xs) d =
      ground (arith, any-filter (same x) r xs d.0, Distinct-filter same r xs d.1)

  pub length-append : (xs ys : List A) → length (xs ++ ys) ≡ length xs + length ys
  length-append [] ys = omega arith
  length-append (x ∷ xs) ys = omega (arith, length-append xs ys)

  pub length-take : (n : ℕ) (xs : List A) → length (take n xs) ≡ min n (length xs)
  length-take zero xs = omega arith
  length-take (suc n) [] = omega arith
  length-take (suc n) (x ∷ xs) = omega (arith, length-take n xs)

  pub length-drop : (n : ℕ) (xs : List A) → length (drop n xs) ≡ length xs - n
  length-drop zero xs = omega arith
  length-drop (suc n) [] = omega arith
  length-drop (suc n) (x ∷ xs) = omega (arith, length-drop n xs)

  pub length-replicate : (n : ℕ) (a : A) → length (replicate n a) ≡ n
  length-replicate zero a = refl
  length-replicate (suc n) a = ap suc (length-replicate n a)

  -- Cutting a list where its first part ends, or inside its first part.
  pub take-append_self : (xs ys : List A) → take (length xs) (xs ++ ys) ≡ xs
  take-append_self [] ys = refl
  take-append_self (x ∷ xs) ys = ap (◌∷◌ x) (take-append_self xs ys)

  pub drop-append_self : (xs ys : List A) → drop (length xs) (xs ++ ys) ≡ ys
  drop-append_self [] ys = refl
  drop-append_self (x ∷ xs) ys = drop-append_self xs ys

  pub take-append_left : (n : ℕ) (xs ys : List A) → n ≤ length xs → take n (xs ++ ys) ≡ take n xs
  take-append_left zero xs ys h = refl
  take-append_left (suc n) [] ys h = absurd (omega arith)
  take-append_left (suc n) (x ∷ xs) ys h = ap (◌∷◌ x) (take-append_left n xs ys (omega arith))

  pub drop-append_left :
      (n : ℕ) (xs ys : List A) → n ≤ length xs → drop n (xs ++ ys) ≡ drop n xs ++ ys
  drop-append_left zero xs ys h = refl
  drop-append_left (suc n) [] ys h = absurd (omega arith)
  drop-append_left (suc n) (x ∷ xs) ys h = drop-append_left n xs ys (omega arith)

  pub get_or-append_left :
      (i : ℕ) (d : A) (xs ys : List A) → i < length xs → get_or (xs ++ ys) i d ≡ get_or xs i d
  get_or-append_left i d [] ys h = absurd (omega arith)
  get_or-append_left zero d (x ∷ xs) ys h = refl
  get_or-append_left (suc i) d (x ∷ xs) ys h = get_or-append_left i d xs ys (omega arith)
