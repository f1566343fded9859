-- ===== src/Ui/MemberList/Online.antt =====
-- The members, their rows and the header.
use nullchat.Base.{
  ◌≡◌, refl, Str, ◌==◌, Bool, Option, none, some, List, [], ◌∷◌, ◌++◌, arith, if◌then◌else◌,
  Option-cases, inl, inr,
}
use nullchat.Base.Map.{find, find-insert}
use nullchat.Ui.MemberList.{
  MemberInfo, Row, MemberList, count_online, update_count, set_dot, set_online, add_member, clear,
}

pub data Update : Type 0 where
  adds : Str → Str → Bool → Bool → Update
  sets : Str → Bool → Update
  clears : Update

unfoldable pub apply : Update → MemberList → MemberList
apply (adds id name online is_null) l = add_member id name online is_null l
apply (sets id online) l = set_online id online l
apply clears l = clear l

unfoldable pub apply_all : List Update → MemberList → MemberList
apply_all [] l = l
apply_all (u ∷ us) l = apply_all us (apply u l)

-- What the first row of a member shows: its name and its dot.
abbrev pub row_of : List Row → Str → Option (Str × Bool)
row_of [] id = none
row_of (row ∷ rows) id = if row.id == id then some (row.name, row.lit) else row_of rows id

abbrev pub row_for : Option MemberInfo → Option (Str × Bool)
row_for none = none
row_for (some m) = some (m.name, m.online)

-- Each member has its row, with its name and with a dot that is lit if it is online; there are no
-- rows of others, and the header counts the members online.
pub record IsShown (l : MemberList) : Type 0 where
  pub rows : (id : Str) → row_of l.rows id ≡ row_for (find id l.members)
  pub header : l.header ≡ count_online l.members

row_of-set_dot :
    (id j : Str) (online : Bool) (rows : List Row)
    → row_of (set_dot id online rows) j ≡ (
        if j == id
        then elim (row_of rows id) [ none ↦ none | some r ↦ some (r.0, online) ]
        else row_of rows j)
unfolding set_dot
row_of-set_dot id j online [] = ground arith
row_of-set_dot id j online (row ∷ rows) = ground (arith, row_of-set_dot id j online rows)

row_of-append :
    (rows : List Row) (row : Row) (j : Str)
    → row_of (rows ++ row ∷ []) j ≡ elim (row_of rows j) [
      | none ↦ if row.id == j then some (row.name, row.lit) else none
      | some r ↦ some r
    ]
row_of-append [] row j = refl
row_of-append (r ∷ rows) row j = ground (arith, row_of-append rows row j)

set_online-IsShown :
    (id : Str) (online : Bool) (l : MemberList) → IsShown l → IsShown (set_online id online l)
unfolding set_online update_count
set_online-IsShown id online l s = elim (Option-cases (find id l.members)) [
  | inl absent ↦ record { rows = λ j. ground (arith, s.rows j); header = ground (arith, s.header) }
  | inr (m, present) ↦ record {
    rows = λ j. ground (
      arith,
      s.rows id,
      s.rows j,
      find-insert j id (record m { online = online }) l.members,
      row_of-set_dot id j online l.rows,
    );
    header = ground arith;
  }
]

add_member-IsShown :
    (id name : Str) (online is_null : Bool) (l : MemberList)
    → IsShown l
    → IsShown (add_member id name online is_null l)
unfolding add_member update_count
add_member-IsShown id name online is_null l s = elim (Option-cases (find id l.members)) [
  | inl absent ↦
      let m : MemberInfo = record { id = id; name = name; online = online; is_null = is_null } in
      let row : Row = record { id = id; name = name; bold = is_null; lit = online } in
      record {
        rows = λ j.
            ground (
              arith,
              s.rows id,
              s.rows j,
              find-insert j id m l.members,
              row_of-append l.rows row j,
            );
        header = ground arith;
      }
  | inr (m, present) ↦
      let set = set_online-IsShown id online l s in
      record { rows = λ j. ground (arith, set.rows j); header = ground (arith, set.header) }
]

apply-IsShown : (u : Update) (l : MemberList) → IsShown l → IsShown (apply u l)
unfolding apply clear update_count find
apply-IsShown (adds id name online is_null) l s = add_member-IsShown id name online is_null l s
apply-IsShown (sets id online) l s = set_online-IsShown id online l s
apply-IsShown clears l s = record { rows = λ j. refl; header = refl }

-- Whatever members come, go on and off, or are cleared, the list keeps this: each member has a row
-- that shows its name and whether it is online, nobody else has one, and the header shows how many
-- are online.
pub apply_all-IsShown : (us : List Update) (l : MemberList) → IsShown l → IsShown (apply_all us l)
unfolding apply_all
apply_all-IsShown [] l s = s
apply_all-IsShown (u ∷ us) l s = apply_all-IsShown us (apply u l) (apply-IsShown u l s)
