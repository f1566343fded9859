-- ===== src/Qt/Sample.antt =====
-- A small Qt that meets the assumptions, for the examples: objects are member lists, and their
-- texts mark the end of each key and of each value by a zero.
use Prim.Native.Char.{code}
use text.Mathlib.Text.{◌==◌ as same_key}
use text.Mathlib.TextEquality.{eq_iff, Char-path}
use nullchat.Base.{
  ℕ, zero, suc, ◌/◌, ◌%◌, ◌<◌, ◌≡◌, refl, ap, ◌∙◌, String, Str, codes, ◌==◌, Bool, true, false,
  List, [], ◌∷◌, map, arith, if◌then◌else◌, eqb, ◌&&◌,
}
use nullchat.Qt.{Qt, IsQt, word}
use nullchat.Base.Int.{ℤ, pos, negsuc}

-- Texts in one text.
mark : Str → Str → Str
mark [] rest = 0 ∷ rest
mark (n ∷ s) rest = suc n ∷ mark s rest

join : List Str → Str
join [] = []
join (s ∷ ss) = mark s (join ss)

push : ℕ → List Str → List Str
push n [] = (n ∷ []) ∷ []
push n (s ∷ ss) = (n ∷ s) ∷ ss

split : Str → List Str
split [] = []
split (zero ∷ r) = [] ∷ split r
split (suc n ∷ r) = push n (split r)

split-mark : (s rest : Str) → split (mark s rest) ≡ s ∷ split rest
unfolding split mark push
split-mark [] rest = refl
split-mark (n ∷ s) rest = ap (push n) (split-mark s rest)

split-join : (ss : List Str) → split (join ss) ≡ ss
unfolding split join
split-join [] = refl
split-join (s ∷ ss) = split-mark s (join ss) ∙ ap (◌∷◌ s) (split-join ss)

abbrev pub Members : Type 0
Members = List (Str × Str)

items : Members → List Str
items [] = []
items ((k, v) ∷ m) = k ∷ v ∷ items m

pairs : List Str → Members
pairs [] = []
pairs (k ∷ []) = []
pairs (k ∷ v ∷ r) = (k, v) ∷ pairs r

pairs-items : (m : Members) → pairs (items m) ≡ m
unfolding pairs items
pairs-items [] = refl
pairs-items ((k, v) ∷ m) = ap (◌∷◌ (k, v)) (pairs-items m)

pub parse : Str → Members
parse s = pairs (split s)

pub print : Members → Str
print m = join (items m)

pub parse-print : (m : Members) → parse (print m) ≡ m
unfolding parse print
parse-print m = ap pairs (split-join (items m)) ∙ pairs-items m

pub at : Members → String → Str
at [] k = []
at ((j, v) ∷ m) k = if j == codes k then v else at m k

pub insert : Members → String → Str → Members
insert m k v = (codes k, v) ∷ m

codes-inj : (s t : String) → codes s ≡ codes t → s ≡ t
codes-inj String.[] String.[] p = refl
codes-inj String.[] (String.◌∷◌ d t) p = cc
codes-inj (String.◌∷◌ c s) String.[] p = cc
codes-inj (String.◌∷◌ c s) (String.◌∷◌ d t) p =
    let heads : code c ≡ code d = cc in
    let tails : codes s ≡ codes t = cc in cc (Char-path c d heads, codes-inj s t tails)

pub at-insert :
    (m : Members) (k j : String) (v : Str)
    → at (insert m k v) j ≡ (if same_key j k then v else at m j)
unfolding at insert
at-insert m k j v = ground (arith, eq_iff j k, codes-inj k j)

-- A value begins with its kind; a missing one is the empty list.
to_string : Str → Str
to_string [] = []
to_string (kind ∷ s) = if eqb kind 0 then s else []

bool : Bool → Str
bool true = 1 ∷ 1 ∷ []
bool false = 1 ∷ 0 ∷ []

to_bool : Str → Bool
to_bool (kind ∷ b ∷ []) = eqb kind 1 && eqb b 1
to_bool _ = false

integer : ℤ → Str
integer (pos n) = 2 ∷ n ∷ []
integer (negsuc n) = 3 ∷ n ∷ []

to_integer : Str → ℤ
to_integer (kind ∷ n ∷ []) = if eqb kind 2 then pos n else if eqb kind 3 then negsuc n else pos 0
to_integer _ = pos 0

array : List Members → Str
array os = 4 ∷ join (map print os)

to_array : Str → List Members
to_array [] = []
to_array (kind ∷ s) = if eqb kind 4 then map parse (split s) else []

map-parse-print : (os : List Members) → map parse (map print os) ≡ os
map-parse-print [] = refl
map-parse-print (o ∷ os) = cc (parse-print o, map-parse-print os)

to_array-array : (os : List Members) → to_array (array os) ≡ os
unfolding to_array array
to_array-array os = ap (map parse) (split-join (map print os)) ∙ map-parse-print os

swap : ℕ → ℕ
swap n = word (n / 16777216 % 256) (n / 65536 % 256) (n / 256 % 256) (n % 256)

swap-word :
    (a b c d : ℕ) → a < 256 → b < 256 → c < 256 → d < 256 → swap (word a b c d) ≡ word d c b a
unfolding swap
swap-word a b c d ha hb hc hd = omega arith

unfoldable pub sample : Qt
unfolding swap parse print at insert to_string bool to_bool integer to_integer array to_array mark
    join push split items pairs
sample = record {
  to_big_endian = swap;
  from_big_endian = swap;
  uuid = λ n. 117 ∷ n ∷ [];
  Object = Members;
  Value = Str;
  parse = parse;
  print = print;
  empty = [];
  at = at;
  insert = insert;
  string = λ s. 0 ∷ s;
  bool = bool;
  integer = integer;
  array = array;
  to_string = to_string;
  to_bool = to_bool;
  to_integer = to_integer;
  to_array = to_array;
}

pub sample-IsQt : IsQt sample
unfolding sample
sample-IsQt = record {
  to_big_endian_word = swap-word;
  from_big_endian_word = swap-word;
  uuid_new = λ m n h e. h (ground arith);
  uuid-ne-nil = λ n e. cc;
  parse-print = parse-print;
  at-insert = at-insert;
  to_string-string = λ s. refl;
  to_bool-bool = elim [ true ↦ refl | false ↦ refl ];
  to_integer-integer = elim [ pos n ↦ refl | negsuc n ↦ refl ];
  to_array-array = to_array-array;
  to_string-empty = λ k. refl;
  to_bool-empty = λ k. refl;
  to_integer-empty = λ k. refl;
  to_array-empty = λ k. refl;
}
