-- ===== src/Qt.antt =====
-- Qt as the program uses it: the byte order functions of QtEndian, QJsonDocument with QJsonObject
-- and QJsonValue, and QUuid. Qt is not part of the repository, so it is a parameter of every
-- definition that calls it; `IsQt` states the documented behaviour that the theorems rely on.
pub mod Sample
pub mod Widgets
pub mod Json
use nullchat.Base.{ℕ, ◌+◌, ◌*◌, ◌<◌, ◌≡◌, ◌≢◌, String, Str, Bool, false, [], List, if◌then◌else◌}
use nullchat.Base.Int.{ℤ, pos}
use text.Mathlib.Text.{◌==◌ as same_key}

pub record Qt : Type 1 where
  -- `qToBigEndian` and `qFromBigEndian` at `uint32_t`.
  pub to_big_endian : ℕ → ℕ
  pub from_big_endian : ℕ → ℕ
  -- The text of the n-th `QUuid::createUuid()`.
  pub uuid : ℕ → Str
  -- `QJsonObject` and `QJsonValue`.
  pub Object : Type 0
  pub Value : Type 0
  pub parse : Str → Object
  pub print : Object → Str
  pub empty : Object
  pub at : Object → String → Value
  pub insert : Object → String → Value → Object
  pub string : Str → Value
  pub bool : Bool → Value
  pub integer : ℤ → Value
  pub array : List Object → Value
  pub to_string : Value → Str
  pub to_bool : Value → Bool
  pub to_integer : Value → ℤ
  pub to_array : Value → List Object

-- Four bytes as a number, the least significant first.
abbrev pub word : ℕ → ℕ → ℕ → ℕ → ℕ
word a b c d = a + 256 * b + 65536 * c + 16777216 * d

pub record IsQt (q : Qt) : Type 0 where
  -- On a little-endian host both functions reverse the four bytes.
  pub to_big_endian_word :
      (a b c d : ℕ)
      → a < 256
      → b < 256
      → c < 256
      → d < 256
      → q.to_big_endian (word a b c d) ≡ word d c b a
  pub from_big_endian_word :
      (a b c d : ℕ)
      → a < 256
      → b < 256
      → c < 256
      → d < 256
      → q.from_big_endian (word a b c d) ≡ word d c b a
  -- Each UUID is new, and none is the empty text.
  pub uuid_new : (m n : ℕ) → m ≢ n → q.uuid m ≢ q.uuid n
  pub uuid-ne-nil : (n : ℕ) → q.uuid n ≢ []
  -- A printed object is read back.
  pub parse-print : (o : q.Object) → q.parse (q.print o) ≡ o
  pub at-insert :
      (o : q.Object) (k j : String) (v : q.Value)
      → q.at (q.insert o k v) j ≡ (if same_key j k then v else q.at o j)
  pub to_string-string : (s : Str) → q.to_string (q.string s) ≡ s
  pub to_bool-bool : (b : Bool) → q.to_bool (q.bool b) ≡ b
  pub to_integer-integer : (z : ℤ) → q.to_integer (q.integer z) ≡ z
  pub to_array-array : (os : List q.Object) → q.to_array (q.array os) ≡ os
  -- A missing member reads as the empty text, as false, as 0 and as no items.
  pub to_string-empty : (k : String) → q.to_string (q.at q.empty k) ≡ []
  pub to_bool-empty : (k : String) → q.to_bool (q.at q.empty k) ≡ false
  pub to_integer-empty : (k : String) → q.to_integer (q.at q.empty k) ≡ pos 0
  pub to_array-empty : (k : String) → q.to_array (q.at q.empty k) ≡ []
