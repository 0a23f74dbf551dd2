-- ===== src/Organizations/Members.antt =====
-- Organizations and their members in server/app/api/organizations.py, and `register` of
-- server/app/api/auth.py. What a request answers is left out where it only repeats stored columns,
-- and so are the numbers and names that a detail quotes.
use corella.Prelude.{
  ℕ, ◌+◌, Bool, true, false, not, ◌&&◌, Option, none, some, [], ◌∷◌, ◌++◌, ◌==◌, leb, find, modify,
  reject, length, Text, text_eq, strip,
}
use corella.Http.{Result, ok, ◌>>=◌, ◌>>◌, raise_if, or_raise, raise_if_some}
use corella.Organizations.Model.{
  OrgRole, owner, admin, is_owner, User, Organization, Db, Settings, AuthContext, is_organization,
  is_membership, is_some_id,
}
use corella.Organizations.Service.{
  or_else, default_org_name, owned_org_count, get_membership, get_instance_org, set_active,
  create_organization, add_membership, in_organization,
}
use corella.Organizations.Deps.{
  get_current_user, get_auth_context, require_org_admin, require_org_owner,
}

-- `if ctx.org_id != org_id: raise ...`, which stands at the head of each handler.
abbrev pub same_org : AuthContext → ℕ → Result (Unit {0})
same_org ctx org_id =
    raise_if (not (ctx.organization.id == org_id)) 403 "Switch to this organization first"

-- `user.role = role`, on the row of a membership
unfoldable pub set_role : ℕ → ℕ → OrgRole → Db → Db
set_role user_id organization_id role db = record db {
  memberships =
      modify (is_membership user_id organization_id) (λ r. record r { role = role }) db.memberships;
}

unfoldable pub drop_membership : ℕ → ℕ → Db → Db
drop_membership user_id organization_id db = record db {
  memberships = reject (is_membership user_id organization_id) db.memberships;
}

abbrev pub has_email : Text → User → Bool
has_email email u = text_eq u.email email

-- The row of a new account: not a super admin, and with the next id.
unfoldable pub add_user : Db → Text → Text → Option ℕ → User × Db
add_user db email full_name active =
    let user : User = record {
      id = db.next_id;
      email = email;
      full_name = full_name;
      is_super_admin = false;
      active_organization_id = active;
    } in
    (user, record db { users = db.users ++ user ∷ []; next_id = db.next_id + 1 })

-- `register` of server/app/api/auth.py
unfoldable pub register : Settings → Text → Text → Db → Result (User × Db)
unfolding add_user create_organization default_org_name
register settings email full_name db = do
  raise_if (not settings.allow_public_registration) 403
      "Self-serve registration is disabled on this instance. Ask an admin to create your account."
  raise_if_some (find (has_email email) db.users) 409 "Email is already registered"
  let added = add_user db email full_name none
  ok (added.0, (create_organization added.1 added.0.id (default_org_name full_name) false true).1)

unfoldable pub create_org : Settings → Option ℕ → Text → Db → Result (Organization × Db)
unfolding owned_org_count create_organization default_org_name
create_org settings token name db = do
  user ← get_current_user db token
  raise_if (not settings.allow_public_registration) 403
      "Creating organizations is disabled on this instance"
  raise_if (leb settings.max_orgs_per_user (owned_org_count db user.id)) 403
      "You can own at most the configured number of organizations"
  ok (
      create_organization db user.id (or_else (strip name) (default_org_name user.full_name)) false
        true)

unfoldable pub switch_current_org : Option ℕ → ℕ → Db → Result (OrgRole × Db)
unfolding get_membership set_active
switch_current_org token organization_id db = do
  user ← get_current_user db token
  membership ← or_raise (get_membership db user.id organization_id) 404 "Organization not found"
  org ←
      or_raise (find (is_organization organization_id) db.organizations) 404
        "Organization not found"
  ok (membership.role, set_active user.id (some org.id) db)

unfoldable pub rename_org : Option ℕ → ℕ → Text → Db → Result (Unit {0} × Db)
rename_org token org_id name db = do
  asked ← require_org_admin db token
  same_org asked.0 org_id
  let db' : Db = asked.1
  ok (
    tt,
    record db' {
      organizations =
          modify (is_organization org_id) (λ o. record o { name = strip name }) db'.organizations;
    },
  )

-- DELETE of an organization: its memberships, invites, groups and their members go with it, and
-- accounts whose active organization it was have none.
unfoldable pub drop_organization : ℕ → Db → Db
unfolding in_organization
drop_organization org_id db = record db {
  users =
      modify (λ u. is_some_id org_id u.active_organization_id)
        (λ u. record u { active_organization_id = none }) db.users;
  organizations = reject (is_organization org_id) db.organizations;
  memberships = reject (λ r. r.organization_id == org_id) db.memberships;
  invites = reject (λ r. r.organization_id == org_id) db.invites;
  groups = reject (λ r. r.organization_id == org_id) db.groups;
  group_memberships = reject (λ r. in_organization db org_id r.group_id) db.group_memberships;
}

unfoldable pub delete_org : Option ℕ → ℕ → Db → Result (Unit {0} × Db)
unfolding drop_organization
delete_org token org_id db = do
  asked ← require_org_owner db token
  same_org asked.0 org_id
  raise_if asked.0.organization.is_instance_org 422 "Cannot delete the default organization"
  raise_if (leb (length asked.1.organizations) 1) 422 "Cannot delete the last organization"
  ok (tt, drop_organization org_id asked.1)

-- `instance is None or instance.id != org_id`
abbrev pub not_instance : Option Organization → ℕ → Bool
not_instance none org_id = true
not_instance (some o) org_id = not (o.id == org_id)

unfoldable pub create_member :
    Settings → Option ℕ → ℕ → Text → Text → OrgRole → Db → Result (User × Db)
unfolding add_user add_membership get_instance_org
create_member settings token org_id email full_name role db = do
  asked ← require_org_admin db token
  same_org asked.0 org_id
  raise_if (is_owner role) 422 "Cannot create an owner this way"
  raise_if_some (find (has_email email) asked.1.users) 409 "Email is already registered"
  raise_if
      (not settings.allow_public_registration && not_instance (get_instance_org asked.1) org_id) 403
      "New accounts join the instance organization"
  let added = add_user asked.1 email full_name (some org_id)
  ok (added.0, add_membership added.1 added.0 org_id role true)

-- A new role, unless none is given.
abbrev pub change_role : ℕ → ℕ → Option OrgRole → Db → Result (Unit {0} × Db)
change_role user_id org_id none db = ok (tt, db)
change_role user_id org_id (some role) db = do
  raise_if (is_owner role) 422 "Transfer ownership instead"
  ok (tt, set_role user_id org_id role db)

unfoldable pub update_member : Option ℕ → ℕ → ℕ → Option OrgRole → Db → Result (Unit {0} × Db)
unfolding get_membership set_role
update_member token org_id user_id role db = do
  asked ← require_org_admin db token
  same_org asked.0 org_id
  membership ← or_raise (get_membership asked.1 user_id org_id) 404 "Member not found"
  raise_if (is_owner membership.role) 403 "Cannot change the owner's role"
  change_role user_id org_id role asked.1

-- `if user.active_organization_id == org_id: user.active_organization_id = None`
unfoldable pub clear_active : ℕ → ℕ → Db → Db
clear_active user_id org_id db = record db {
  users =
      modify (λ u. u.id == user_id && is_some_id org_id u.active_organization_id)
        (λ u. record u { active_organization_id = none }) db.users;
}

unfoldable pub remove_member : Option ℕ → ℕ → ℕ → Db → Result (Unit {0} × Db)
unfolding get_membership drop_membership clear_active
remove_member token org_id user_id db = do
  asked ← require_org_admin db token
  same_org asked.0 org_id
  membership ← or_raise (get_membership asked.1 user_id org_id) 404 "Member not found"
  raise_if (is_owner membership.role) 403 "Cannot remove the owner"
  ok (tt, clear_active user_id org_id (drop_membership user_id org_id asked.1))

unfoldable pub transfer_ownership : Option ℕ → ℕ → ℕ → Db → Result (Unit {0} × Db)
unfolding get_membership set_role
transfer_ownership token org_id user_id db = do
  asked ← require_org_owner db token
  same_org asked.0 org_id
  target ← or_raise (get_membership asked.1 user_id org_id) 404 "Member not found"
  let caller = asked.0.membership
  let db' : Db = set_role caller.user_id caller.organization_id admin asked.1
  ok (tt, set_role target.user_id target.organization_id owner db')

unfoldable pub leave_org : Option ℕ → ℕ → Db → Result (Unit {0} × Db)
unfolding drop_membership set_active
leave_org token org_id db = do
  asked ← get_auth_context db token
  same_org asked.0 org_id
  raise_if (is_owner asked.0.membership.role) 422 "Transfer ownership before leaving"
  let caller = asked.0.membership
  ok (
    tt,
    set_active asked.0.user.id none (drop_membership caller.user_id caller.organization_id asked.1),
  )
