-- ===== src/Ui/MemberList.antt =====
-- src/client/ui/MemberList.h and src/client/ui/MemberList.cpp: the members, their rows with name
-- and dot, and the header with the number of members online.
pub mod Online
use nullchat.Base.{ℕ, suc, Str, ◌==◌, Bool, none, some, List, [], ◌∷◌, ◌++◌, if◌then◌else◌}
use nullchat.Base.Map.{Map, find, insert}

pub record MemberInfo : Type 0 where
  pub id : Str
  pub name : Str
  pub online : Bool
  pub is_null : Bool

-- A row: `bold` for a null user, `lit` for the dot of a member online. The id stands for the pointer
-- from the member to its row.
pub record Row : Type 0 where
  pub id : Str
  pub name : Str
  pub bold : Bool
  pub lit : Bool

-- `header` is the number that the header shows.
pub record MemberList : Type 0 where
  pub members : Map MemberInfo
  pub rows : List Row
  pub header : ℕ

abbrev pub no_members : MemberList
no_members = record { members = []; rows = []; header = 0 }

unfoldable pub count_online : Map MemberInfo → ℕ
count_online [] = 0
count_online ((id, m) ∷ ms) = let rest = count_online ms in if m.online then suc rest else rest

unfoldable pub update_count : MemberList → MemberList
unfolding count_online
update_count l = record l { header = count_online l.members }

-- The dot of the member's row.
unfoldable pub set_dot : Str → Bool → List Row → List Row
set_dot id online [] = []
set_dot id online (row ∷ rows) =
    let rest = set_dot id online rows in
    (if row.id == id then record row { lit = online } else row) ∷ rest

unfoldable pub set_online : Str → Bool → MemberList → MemberList
unfolding set_dot update_count
set_online id online l = elim (find id l.members) [
  | none ↦ l
  | some m ↦ update_count (record l {
    members = insert id (record m { online = online }) l.members;
    rows = set_dot id online l.rows;
  })
]

unfoldable pub add_member : Str → Str → Bool → Bool → MemberList → MemberList
unfolding set_online update_count
add_member id name online is_null l = elim (find id l.members) [
  | none ↦ update_count (record l {
    members =
        insert id (record { id = id; name = name; online = online; is_null = is_null }) l.members;
    rows = l.rows ++ record { id = id; name = name; bold = is_null; lit = online } ∷ [];
  })
  | some m ↦ set_online id online l
]

unfoldable pub clear : MemberList → MemberList
unfolding update_count
clear l = update_count (record l { members = []; rows = [] })
