-- ===== src/Organizations/Service.antt =====
-- server/app/services/organizations.py. Seeding the default call types of a new organization touches
-- no table of the model and is left out.
use corella.Prelude.{
  ℕ, ◌+◌, Bool, ◌&&◌, Option, none, some, List, [], ◌∷◌, ◌++◌, ◌==◌, if◌then◌else◌, is_some, find,
  modify, keep, any, tally, map, Text, codes, strip, nonempty,
}
use corella.Organizations.Model.{
  OrgRole, owner, is_owner, is_admin, User, Organization, OrganizationMembership, Db, AuthContext,
  is_user, is_organization, is_membership,
}

-- `x or fallback`, for a text
abbrev pub or_else : Text → Text → Text
or_else s fallback = if nonempty s then s else fallback

unfoldable pub default_org_name : Text → Text
default_org_name full_name = or_else (strip full_name) (codes "User") ++ codes " Org"

-- The properties of `OrgActor`, which `AuthContext` has too.
unfoldable pub is_org_owner : AuthContext → Bool
is_org_owner ctx = is_owner ctx.membership.role

unfoldable pub is_org_admin : AuthContext → Bool
is_org_admin ctx = is_admin ctx.membership.role

unfoldable pub owned_org_count : Db → ℕ → ℕ
owned_org_count db user_id = tally (λ r. r.user_id == user_id && is_owner r.role) db.memberships

unfoldable pub get_membership : Db → ℕ → ℕ → Option OrganizationMembership
get_membership db user_id organization_id =
    find (is_membership user_id organization_id) db.memberships

unfoldable pub get_instance_org : Db → Option Organization
get_instance_org db = find (λ o. o.is_instance_org) db.organizations

-- `user.active_organization_id = ...`
unfoldable pub set_active : ℕ → Option ℕ → Db → Db
set_active user_id active db = record db {
  users = modify (is_user user_id) (λ u. record u { active_organization_id = active }) db.users;
}

-- The new row has the id `db.next_id`.
unfoldable pub create_organization : Db → ℕ → Text → Bool → Bool → Organization × Db
unfolding set_active
create_organization db owner_id name is_instance_org activate =
    let org : Organization = record {
      id = db.next_id;
      name = name;
      is_instance_org = is_instance_org;
    } in
    let db' : Db = record db {
      organizations = db.organizations ++ org ∷ [];
      memberships =
          db.memberships
          ++ record { user_id = owner_id; organization_id = org.id; role = owner } ∷ [];
      next_id = db.next_id + 1;
    } in
    (org, if activate then set_active owner_id (some org.id) db' else db')

unfoldable pub add_membership : Db → User → ℕ → OrgRole → Bool → Db
unfolding set_active
add_membership db user organization_id role activate =
    let db' : Db = record db {
      memberships =
          db.memberships
          ++ record { user_id = user.id; organization_id = organization_id; role = role } ∷ [];
    } in
    if activate
    then set_active user.id (some organization_id) db'
    else if is_some user.active_organization_id
    then db'
    else set_active user.id (some organization_id) db'

abbrev pub with_home :
    OrganizationMembership → Option Organization → Option (Organization × OrganizationMembership)
with_home membership none = none
with_home membership (some org) = some (org, membership)

-- `org = await db.get(Organization, membership.organization_id)`, behind a membership if there is one
unfoldable pub home_of :
    Db → Option OrganizationMembership → Option (Organization × OrganizationMembership)
home_of db none = none
home_of db (some membership) =
    with_home membership (find (is_organization membership.organization_id) db.organizations)

abbrev pub get_active : Db → ℕ → Option ℕ → Option OrganizationMembership
get_active db user_id none = none
get_active db user_id (some active) = get_membership db user_id active

-- The stored active organization, if the user still is in it.
unfoldable pub stored_active : Db → User → Option (Organization × OrganizationMembership)
unfolding get_membership home_of
stored_active db user = home_of db (get_active db user.id user.active_organization_id)

abbrev pub store_pick :
    Db
    → ℕ
    → Option (Organization × OrganizationMembership)
    → Option (Organization × OrganizationMembership × Db)
store_pick db user_id none = none
store_pick db user_id (some (org, membership)) =
    some (org, membership, set_active user_id (some org.id) db)

-- The oldest membership that is left; the pick is stored.
unfoldable pub pick_active : Db → User → Option (Organization × OrganizationMembership × Db)
unfolding set_active home_of
pick_active db user =
    store_pick db user.id (home_of db (find (λ r. r.user_id == user.id) db.memberships))

abbrev pub or_pick :
    Db
    → User
    → Option (Organization × OrganizationMembership)
    → Option (Organization × OrganizationMembership × Db)
or_pick db user none = pick_active db user
or_pick db user (some (org, membership)) = some (org, membership, db)

unfoldable pub resolve_active_membership :
    Db → User → Option (Organization × OrganizationMembership × Db)
unfolding stored_active pick_active
resolve_active_membership db user = or_pick db user (stored_active db user)

unfoldable pub in_organization : Db → ℕ → ℕ → Bool
in_organization db organization_id group_id =
    any (λ g. g.id == group_id && g.organization_id == organization_id) db.groups

unfoldable pub group_ids_for_user : Db → ℕ → ℕ → List ℕ
unfolding in_organization
group_ids_for_user db user_id organization_id =
    map (λ r. r.group_id)
      (keep (λ r. r.user_id == user_id && in_organization db organization_id r.group_id)
        db.group_memberships)

unfoldable pub users_share_group : Db → ℕ → ℕ → ℕ → Bool
unfolding group_ids_for_user
users_share_group db user_a user_b organization_id =
    let a_groups = group_ids_for_user db user_a organization_id in
    any (λ r. r.user_id == user_b && any (λ g. g == r.group_id) a_groups) db.group_memberships
