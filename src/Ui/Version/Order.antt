-- ===== src/Ui/Version/Order.antt =====
-- The order of versions.
use nullchat.Base.{
  ◌≡◌, ◌≢◌, refl, ap, Str, Bool, true, false, none, some, ◌&&◌, if◌then◌else◌, arith,
}
use nullchat.Base.Int.{ℤ}
use nullchat.Ui.Version.{Version, parse, is_newer_version, is_ints, greater_or, gtb_ℤ}

greater_or_refl : (x : ℤ) (r : Bool) → r ≡ false → greater_or x x r ≡ false
greater_or_refl x r h = ground arith

greater_or_asym :
    (x y : ℤ) (r s : Bool)
    → (r ≡ true → s ≡ false)
    → greater_or x y r ≡ true
    → greater_or y x s ≡ false
greater_or_asym x y r s h g = ground arith

greater_or_trans :
    (x y z : ℤ) (r s t : Bool)
    → (r ≡ true → s ≡ true → t ≡ true)
    → greater_or x y r ≡ true
    → greater_or y z s ≡ true
    → greater_or x z t ≡ true
greater_or_trans x y z r s t h g k = ground arith

gtb_ℤ-greater_or : (x y : ℤ) → gtb_ℤ y x ≡ greater_or x y false
gtb_ℤ-greater_or x y = ground arith

-- The comparison of three numbers, the last one like the others.
newer : Version → Version → Bool
newer u v = greater_or u.maj v.maj (greater_or u.min v.min (greater_or u.pat v.pat false))

is_newer_version_lem :
    (a b : Str)
    → is_newer_version a b
      ≡ (if is_ints (parse a) && is_ints (parse b) then some (newer (parse a) (parse b)) else none)
unfolding is_newer_version newer
is_newer_version_lem a b =
    let u = parse a in
    let v = parse b in
    let last =
      ap (λ r. greater_or u.maj v.maj (greater_or u.min v.min r)) (gtb_ℤ-greater_or u.pat v.pat) in
    rw last refl

newer_refl : (u : Version) → newer u u ≡ false
unfolding newer
newer_refl u =
    greater_or_refl u.maj (greater_or u.min u.min (greater_or u.pat u.pat false))
      (greater_or_refl u.min (greater_or u.pat u.pat false) (greater_or_refl u.pat false refl))

newer_asym : (u v : Version) → newer u v ≡ true → newer v u ≡ false
unfolding newer
newer_asym u v =
    greater_or_asym u.maj v.maj (greater_or u.min v.min (greater_or u.pat v.pat false))
      (greater_or v.min u.min (greater_or v.pat u.pat false))
      (greater_or_asym u.min v.min (greater_or u.pat v.pat false) (greater_or v.pat u.pat false)
        (greater_or_asym u.pat v.pat false false (λ never. refl)))

newer_trans : (u v w : Version) → newer u v ≡ true → newer v w ≡ true → newer u w ≡ true
unfolding newer
newer_trans u v w =
    greater_or_trans u.maj v.maj w.maj (greater_or u.min v.min (greater_or u.pat v.pat false))
      (greater_or v.min w.min (greater_or v.pat w.pat false))
      (greater_or u.min w.min (greater_or u.pat w.pat false))
      (greater_or_trans u.min v.min w.min (greater_or u.pat v.pat false)
        (greater_or v.pat w.pat false) (greater_or u.pat w.pat false)
        (greater_or_trans u.pat v.pat w.pat false false false (λ r s. r)))

-- No version is newer than itself, of two versions at most one is newer than the other, and being
-- newer passes on: whatever texts are compared, where their numbers are values of `int`,
-- `isNewerVersion` is a strict order.
pub is_newer_version_order :
    (a b c : Str)
    → (is_newer_version a a ≢ some true)
      × (is_newer_version a b ≡ some true → is_newer_version b a ≡ some false)
      × (is_newer_version a b ≡ some true
          → is_newer_version b c ≡ some true
          → is_newer_version a c ≡ some true)
is_newer_version_order a b c =
    let u = parse a in
    let v = parse b in
    let w = parse c in
    let ab = is_newer_version_lem a b in
    let ba = is_newer_version_lem b a in
    let bc = is_newer_version_lem b c in
    let ac = is_newer_version_lem a c in
    let aa = is_newer_version_lem a a in
    (
      λ g. ground (arith, aa, newer_refl u),
      λ g. ground (arith, ab, ba, newer_asym u v),
      λ g h. ground (arith, ab, bc, ac, newer_trans u v w),
    )
