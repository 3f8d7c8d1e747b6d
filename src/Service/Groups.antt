-- ===== src/Service/Groups.antt =====
-- The operations of internal/service/groups.go that change groups and their members. Each yields a new
-- database or an error; the id of a new row is the next one.
use pogu.Prelude.{
  ℕ, List, [], ◌∷◌, Bool, true, ◌&&◌, not, ◌==◌, Text, length, where_, any, update_where, eq_nocase,
  find, ◌+◌,
}
use pogu.Store.{
  Db, GroupRow, MemberRow, TargetType, insert_row, delete_where, with_rows, next_position,
}
use pogu.Service.Types.{
  Result, ok, validation, already_exists, not_found, guard, or_fail, ◌>>=◌, ◌>>◌, Service,
}
use pogu.Service.Validate.{validate_group_name, validate_group_selection}
use pogu.Service.Routing.{get_group, get_model, list_members}
use pogu.Service.PromptRules.{delete_prompt_targets_for, commit}

-- name TEXT NOT NULL UNIQUE COLLATE NOCASE, seen from the row of the given id
abbrev group_name_free : Db → ℕ → Text → Bool
group_name_free db id name =
    not (any (λ g. eq_nocase g.name name && not (g.id == id)) db.groups.rows)

unfoldable pub create_group : Db → Text → Bool → Text → Result (GroupRow × Db)
unfolding validate_group_name validate_group_selection get_group
create_group db name enabled selection = do
  name' ← validate_group_name db name
  sel ← validate_group_selection selection
  guard (group_name_free db (db.groups.last_id + 1) name') already_exists
  let db' : Db = record db {
    groups =
        insert_row (λ id. record { id = id; name = name'; selection = sel; enabled = enabled })
          db.groups;
  }
  g ← get_group db' (db.groups.last_id + 1)
  ok (g, db')

unfoldable pub update_group : Db → ℕ → Text → Bool → Text → Result (GroupRow × Db)
unfolding validate_group_name validate_group_selection get_group
update_group db id name enabled selection = do
  get_group db id
  name' ← validate_group_name db name
  sel ← validate_group_selection selection
  guard (group_name_free db id name') already_exists
  let db' : Db = record db {
    groups =
        with_rows
          (update_where (λ g. g.id == id)
            (λ g. record g { name = name'; selection = sel; enabled = enabled }) db.groups.rows)
          db.groups;
  }
  g ← get_group db' id
  ok (g, db')

unfoldable pub set_group_selection : Db → ℕ → Text → Result (GroupRow × Db)
unfolding validate_group_selection get_group
set_group_selection db id selection = do
  sel ← validate_group_selection selection
  guard (any (λ g. g.id == id) db.groups.rows) not_found
  let db' : Db = record db {
    groups =
        with_rows
          (update_where (λ g. g.id == id) (λ g. record g { selection = sel }) db.groups.rows)
          db.groups;
  }
  g ← get_group db' id
  ok (g, db')

-- What DeleteGroup deletes: the prompt targets of the group go with it, and the members cascade.
unfoldable pub without_group : Db → ℕ → Db
unfolding delete_prompt_targets_for
without_group db id =
    let db' = delete_prompt_targets_for (TargetType.group, id) db in
    record db' {
      groups = delete_where (λ r. r.id == id) db'.groups;
      members = delete_where (λ gm. gm.group_id == id) db'.members;
    }

-- The transaction of DeleteGroup
unfoldable pub delete_group_in : Db → ℕ → Result Db
unfolding without_group
delete_group_in db id = do
  guard (any (λ r. r.id == id) db.groups.rows) not_found
  ok (without_group db id)

unfoldable pub delete_group : Service → ℕ → Result (Unit {0}) × Service
unfolding delete_group_in commit
delete_group s id = commit s (delete_group_in s.db id)

get_member : Db → ℕ → Result MemberRow
get_member db id = or_fail (find (λ gm. gm.id == id) db.members.rows) not_found

unfoldable pub add_group_member : Db → ℕ → ℕ → Result (MemberRow × Db)
unfolding get_group get_model get_member
add_group_member db group_id model_id = do
  get_group db group_id
  get_model db model_id
  guard (not (any (λ gm. gm.group_id == group_id && gm.model_id == model_id) db.members.rows))
      already_exists
  let position =
      next_position (λ gm. gm.position) (where_ (λ gm. gm.group_id == group_id) db.members.rows)
  let db' : Db = record db {
    members =
        insert_row
          (λ id. record {
            id = id;
            group_id = group_id;
            model_id = model_id;
            position = position;
            enabled = true;
          })
          db.members;
  }
  gm ← get_member db' (db.members.last_id + 1)
  ok (gm, db')

abbrev member_of : ℕ → ℕ → MemberRow → Bool
member_of group_id member_id gm = gm.id == member_id && gm.group_id == group_id

unfoldable pub update_group_member : Db → ℕ → ℕ → Bool → Result (MemberRow × Db)
unfolding get_member
update_group_member db group_id member_id enabled = do
  guard (any (member_of group_id member_id) db.members.rows) not_found
  let db' : Db = record db {
    members =
        with_rows
          (update_where (member_of group_id member_id) (λ gm. record gm { enabled = enabled })
            db.members.rows)
          db.members;
  }
  gm ← get_member db' member_id
  ok (gm, db')

unfoldable pub delete_group_member : Db → ℕ → ℕ → Result Db
delete_group_member db group_id member_id = do
  guard (any (member_of group_id member_id) db.members.rows) not_found
  ok (record db { members = delete_where (member_of group_id member_id) db.members })

-- The loop of ReorderGroupMembers over the ids, with the set `seen`.
unfoldable pub members_in_order : List MemberRow → List ℕ → List ℕ → Bool
members_in_order members seen [] = true
members_in_order members seen (id ∷ ids) =
    any (λ gm. gm.id == id) members
    && not (any (λ i. i == id) seen)
    && members_in_order members (id ∷ seen) ids

place_members : ℕ → ℕ → List ℕ → List MemberRow → List MemberRow
place_members group_id position [] rows = rows
place_members group_id position (id ∷ ids) rows =
    place_members group_id (position + 1) ids
      (update_where (member_of group_id id) (λ gm. record gm { position = position }) rows)

unfoldable pub reorder_group_members : Db → ℕ → List ℕ → Result Db
unfolding list_members members_in_order place_members
reorder_group_members db group_id ids = do
  members ← list_members db group_id
  guard (length ids == length members) validation
  guard (members_in_order members [] ids) validation
  ok (record db { members = with_rows (place_members group_id 0 ids db.members.rows) db.members })
