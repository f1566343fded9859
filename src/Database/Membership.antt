-- ===== src/Database/Membership.antt =====
-- Groups and their members: `createGroup`, `addMember`, `getGroupMembers` and `getUserGroups`.
use nullchat.Base.{
  suc, ◌≡◌, refl, Str, ◌==◌, Bool, true, false, not, ◌&&◌, List, [], ◌∷◌, ◌++◌, map, any,
  any-append, filter, if◌then◌else◌, arith,
}
use nullchat.Qt.{Qt}
use nullchat.Database.{
  Database, GroupRecord, MemberRecord, ready, spend, same_member, join_groups, add_member,
  create_group, get_group_members, get_user_groups,
}

abbrev pub is_member : List MemberRecord → Str → Str → Bool
is_member ms group_id user_id = any (λ m. m.group_id == group_id && m.user_id == user_id) ms

-- Dropping the row of one member drops that member and no other.
is_member-filter :
    (row : MemberRecord) (ms : List MemberRecord) (g u : Str)
    → is_member (filter (λ m. not (same_member m row)) ms) g u
      ≡ (if g == row.group_id && u == row.user_id then false else is_member ms g u)
is_member-filter row [] g u = ground arith
is_member-filter row (m ∷ ms) g u = ground (arith, is_member-filter row ms g u)

-- After `addMember` reports success, the user is a member of the group, and nothing else changes:
-- not who else is a member of what, and not the other tables.
pub is_member-add_member :
    (db db' : Database) (group_id user_id key g u : Str)
    → add_member db group_id user_id key ≡ (true, db')
    → (is_member db'.members g u
        ≡ (if g == group_id && u == user_id then true else is_member db.members g u))
      × (db'.users ≡ db.users)
      × (db'.groups ≡ db.groups)
      × (db'.messages ≡ db.messages)
unfolding add_member
is_member-add_member db db' group_id user_id key g u h =
    let row : MemberRecord = record {
      user_id = user_id;
      group_id = group_id;
      encrypted_symmetric_key = key;
    } in
    ground (
      arith,
      any-append (λ m. m.group_id == g && m.user_id == u)
          (filter (λ m. not (same_member m row)) db.members) (row ∷ []),
      is_member-filter row db.members g u,
    )

-- An `addMember` whose statement runs makes the user a member.
pub add_member_runs :
    (db : Database) (group_id user_id key : Str)
    → db.faults ≡ []
    → (is_member (add_member db group_id user_id key).1.members group_id user_id ≡ true)
      × ((add_member db group_id user_id key).1.groups ≡ db.groups)
      × ((add_member db group_id user_id key).1.faults ≡ [])
unfolding add_member
add_member_runs db group_id user_id key runs =
    let row : MemberRecord = record {
      user_id = user_id;
      group_id = group_id;
      encrypted_symmetric_key = key;
    } in
    ground (
      arith,
      any-append (λ m. m.group_id == group_id && m.user_id == user_id)
          (filter (λ m. not (same_member m row)) db.members) (row ∷ []),
    )

add_member_fails :
    (db : Database) (group_id user_id key : Str)
    → ready db ≡ false
    → add_member db group_id user_id key ≡ (false, spend db)
unfolding add_member
add_member_fails db group_id user_id key stops = rw stops

-- `getGroupMembers` lists a user if and only if the table has the user in the group.
pub any-get_group_members :
    (db : Database) (group_id user_id : Str)
    → ready db ≡ true
    → any (λ u. u == user_id) (get_group_members db group_id).0
      ≡ is_member db.members group_id user_id
unfolding get_group_members
any-get_group_members db group_id user_id runs = rw (runs) (listed db.members)
  where
    listed :
        (ms : List MemberRecord)
        → any (λ u. u == user_id) (map (λ m. m.user_id) (filter (λ m. m.group_id == group_id) ms))
          ≡ is_member ms group_id user_id
    listed [] = refl
    listed (m ∷ ms) = ground (arith, listed ms)

any-map_const :
    (g : GroupRecord) (id : Str) (ms : List MemberRecord)
    → any (λ x. x.id == id) (map (λ m. g) ms) ≡ (any (λ m. true) ms && g.id == id)
any-map_const g id [] = refl
any-map_const g id (m ∷ ms) = ground (arith, any-map_const g id ms)

any-filter-true :
    (g u : Str) (ms : List MemberRecord)
    → any (λ m. true) (filter (λ m. g == m.group_id && m.user_id == u) ms) ≡ is_member ms g u
any-filter-true g u [] = refl
any-filter-true g u (m ∷ ms) = ground (arith, any-filter-true g u ms)

any-join_groups :
    (ms : List MemberRecord) (user_id id : Str) (gs : List GroupRecord)
    → any (λ g. g.id == id) (join_groups ms user_id gs)
      ≡ (any (λ g. g.id == id) gs && is_member ms id user_id)
unfolding join_groups
any-join_groups ms user_id id [] = refl
any-join_groups ms user_id id (g ∷ gs) =
    let here = filter (λ m. g.id == m.group_id && m.user_id == user_id) ms in
    ground (
      arith,
      any-append (λ x. x.id == id) (map (λ m. g) here) (join_groups ms user_id gs),
      any-map_const g id here,
      any-filter-true g.id user_id ms,
      any-join_groups ms user_id id gs,
    )

-- `getUserGroups` lists a group if and only if the group exists and the user is a member of it.
pub any-get_user_groups :
    (db : Database) (user_id id : Str)
    → ready db ≡ true
    → any (λ g. g.id == id) (get_user_groups db user_id).0
      ≡ (any (λ g. g.id == id) db.groups && is_member db.members id user_id)
unfolding get_user_groups
any-get_user_groups db user_id id runs = rw runs (any-join_groups db.members user_id id db.groups)

module _ (q : Qt) where
  -- A new group: if both statements run and the UUID is new, its id comes back, the group is
  -- stored, and the owner is a member of it.
  pub create_group_runs :
      (db : Database) (name owner_id key : Str)
      → db.faults ≡ []
      → any (λ g. g.id == q.uuid db.uuids) db.groups ≡ false
      → let (id, db') = create_group q db name owner_id key in
        (id ≡ q.uuid db.uuids)
        × (any (λ g. g.id == id) db'.groups ≡ true)
        × (is_member db'.members id owner_id ≡ true)
  unfolding create_group
  create_group_runs db name owner_id key runs fresh =
      let id = q.uuid db.uuids in
      let row : GroupRecord = record { id = id; name = name; owner_id = owner_id } in
      let stored : Database = record db { groups = db.groups ++ row ∷ []; uuids = suc db.uuids } in
      ground (
        arith,
        any-append (λ g. g.id == id) db.groups (row ∷ []),
        add_member_runs stored id owner_id key,
      )

  -- `createGroup` does not look at the outcome of its second statement: if the UUID is new and that
  -- statement fails, the new id still comes back and the group is stored, but the members are those
  -- of before, so the owner has not been added.
  pub create_group_loses_owner :
      (db : Database) (name owner_id key : Str) (later : List Bool)
      → db.faults ≡ false ∷ true ∷ later
      → any (λ g. g.id == q.uuid db.uuids) db.groups ≡ false
      → let (id, db') = create_group q db name owner_id key in
        (id ≡ q.uuid db.uuids)
        × (any (λ g. g.id == id) db'.groups ≡ true)
        × (db'.members ≡ db.members)
  unfolding create_group
  create_group_loses_owner db name owner_id key later fails fresh =
      let id = q.uuid db.uuids in
      let row : GroupRecord = record { id = id; name = name; owner_id = owner_id } in
      let stored : Database = record db {
        groups = db.groups ++ row ∷ [];
        uuids = suc db.uuids;
        faults = true ∷ later;
      } in
      ground (
        arith,
        any-append (λ g. g.id == id) db.groups (row ∷ []),
        add_member_fails stored id owner_id key,
      )
