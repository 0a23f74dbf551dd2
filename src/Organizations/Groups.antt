-- ===== src/Organizations/Groups.antt =====
-- Groups in server/app/api/organizations.py.
use corella.Prelude.{
  ℕ, ◌+◌, Bool, not, Option, List, [], ◌∷◌, ◌++◌, ◌==◌, find, any, reject, Text, ◌&&◌,
}
use corella.Http.{Result, ok, ◌>>=◌, ◌>>◌, raise_if, or_raise}
use corella.Organizations.Model.{Group, GroupMembership, Db, is_group}
use corella.Organizations.Service.{get_membership}
use corella.Organizations.Deps.{require_org_admin}
use corella.Organizations.Members.{same_org}

unfoldable pub create_group : Option ℕ → ℕ → Text → Db → Result (Group × Db)
create_group token org_id name db = do
  asked ← require_org_admin db token
  same_org asked.0 org_id
  let db' : Db = asked.1
  let group : Group = record { id = db'.next_id; organization_id = org_id; name = name }
  ok (group, record db' { groups = db'.groups ++ group ∷ []; next_id = db'.next_id + 1 })

-- The group, if the organization has it.
unfoldable pub get_group : Db → ℕ → ℕ → Result Group
get_group db org_id group_id = do
  group ← or_raise (find (is_group group_id) db.groups) 404 "Group not found"
  raise_if (not (group.organization_id == org_id)) 404 "Group not found"
  ok group

unfoldable pub drop_members : ℕ → Db → Db
drop_members group_id db = record db {
  group_memberships = reject (λ r. r.group_id == group_id) db.group_memberships;
}

unfoldable pub delete_group : Option ℕ → ℕ → ℕ → Db → Result (Unit {0} × Db)
unfolding get_group drop_members
delete_group token org_id group_id db = do
  asked ← require_org_admin db token
  same_org asked.0 org_id
  group ← get_group asked.1 org_id group_id
  let db' : Db = drop_members group_id asked.1
  ok (tt, record db' { groups = reject (is_group group_id) db'.groups })

abbrev has_row : ℕ → ℕ → List GroupMembership → Bool
has_row user_id group_id = any (λ r. r.user_id == user_id && r.group_id == group_id)

-- The loop over `payload.user_ids`. A second row for one user in a group is refused by the unique
-- constraint of server/app/models/group.py, which no handler catches.
unfoldable pub add_members : ℕ → ℕ → List ℕ → Db → Result Db
unfolding get_membership
add_members org_id group_id [] db = ok db
add_members org_id group_id (user_id ∷ user_ids) db = do
  membership ← or_raise (get_membership db user_id org_id) 422 "User is not in this organization"
  raise_if (has_row user_id group_id db.group_memberships) 500 "Internal Server Error"
  add_members org_id group_id user_ids (record db {
    group_memberships =
        db.group_memberships ++ record { user_id = user_id; group_id = group_id } ∷ [];
  })

unfoldable pub set_group_members : Option ℕ → ℕ → ℕ → List ℕ → Db → Result (Unit {0} × Db)
unfolding get_group drop_members add_members
set_group_members token org_id group_id user_ids db = do
  asked ← require_org_admin db token
  same_org asked.0 org_id
  group ← get_group asked.1 org_id group_id
  db' ← add_members org_id group_id user_ids (drop_members group_id asked.1)
  ok (tt, db')
