-- ===== src/Organizations/Preserve/Members.antt =====
-- The requests about an organization and its members in server/app/api/organizations.py keep the tables
-- sound.
use corella.Prelude.{
  ℕ, suc, ◌≤◌, ◌≡◌, refl, true, false, not, Option, none, some, find, modify, tally-modify_keep,
  arith, ◌==◌, Text, strip,
}
use corella.Http.{Succeeds-bind, Succeeds-raise_if, Succeeds-raise_if_some, Succeeds-ok}
use corella.Organizations.Model.{
  OrgRole, is_owner, User, OrganizationMembership, Db, Settings, AuthContext, is_user,
  is_organization, is_membership, is_some_id,
}
use corella.Organizations.Service.{add_membership}
use corella.Organizations.Deps.{require_org_admin, require_org_owner}
use corella.Organizations.Members.{
  has_email, add_user, rename_org, drop_organization, delete_org, create_member,
}
use corella.Organizations.Counts.{members, orgs}
use corella.Organizations.Ownership.{add_membership-IsOwned, drop_organization-IsOwned}
use corella.Organizations.Tables.{IsSound, active-IsRegistered, fewer-IsInvited}
use corella.Organizations.Preserve.Asking.{
  Asked, AskedOwner, require_org_admin-Asked, require_org_owner-Asked,
}
use corella.Organizations.Preserve.Accounts.{Sound, Keeps, add_user-IsSound}

-- The organization in which the caller acts is the one that the path names.
pub same_home :
    (r : AuthContext × Db) (org_id : ℕ)
    → Asked r
    → not (r.0.organization.id == org_id) ≡ false
    → r.0.membership.organization_id ≡ org_id
same_home r org_id a h = ground (arith, a.home)

-- It exists, since the caller is in it.
pub here-orgs :
    (r : AuthContext × Db) (org_id : ℕ)
    → Asked r
    → not (r.0.organization.id == org_id) ≡ false
    → orgs org_id r.1.organizations ≡ 1
here-orgs r org_id a h =
    let m : OrganizationMembership = r.0.membership in
    ground (
      arith,
      a.home,
      a.listed (is_membership m.user_id m.organization_id),
      a.sound.ownership.homes m.user_id m.organization_id,
      a.sound.ownership.one_org org_id,
    )

-- A new name touches nothing that the invariant reads.
rename-IsSound :
    (org_id : ℕ) (name : Text) (db : Db)
    → IsSound db
    → IsSound (record db {
      organizations =
          modify (is_organization org_id) (λ o. record o { name = name }) db.organizations;
    })
rename-IsSound org_id name db v =
    let same : (o : ℕ)
        → orgs o
            (modify (is_organization org_id) (λ o'. record o' { name = name }) db.organizations)
          ≡ orgs o db.organizations =
      λ o.
        tally-modify_keep (is_organization org_id) (is_organization o)
          (λ o'. record o' { name = name }) db.organizations (λ x. refl) in
    record {
      ownership = record {
        one_owner = λ o. rw same (v.ownership.one_owner o);
        one_org = λ o. rw same (v.ownership.one_org o);
        homes = λ u o. rw same (v.ownership.homes u o);
        new_user = v.ownership.new_user;
        new_org = λ n h. rw same (v.ownership.new_org n h);
      };
      registered = v.registered;
      invited = record {
        plain = v.invited.plain;
        at_home = λ o h. v.invited.at_home o (rw same at h);
        one_pending = v.invited.one_pending;
      };
    }

pub rename_org-Keeps :
    (token : Option ℕ) (org_id : ℕ) (name : Text) (db : Db)
    → IsSound db
    → Keeps (rename_org token org_id name db)
unfolding rename_org
rename_org-Keeps token org_id name db v =
    Succeeds-bind Asked Sound (require_org_admin db token) _ (require_org_admin-Asked db token v)
      λ r a.
        Succeeds-raise_if Sound _ 403 _ _
          λ _. Succeeds-ok Sound _ (rename-IsSound org_id (strip name) r.1 a.sound)

drop_organization-IsSound :
    (org_id : ℕ) (db : Db) → IsSound db → IsSound (drop_organization org_id db)
drop_organization-IsSound org_id db v = record {
  ownership = drop_organization-IsOwned db v.ownership org_id;
  registered =
      unfold drop_organization in
      active-IsRegistered (λ u. is_some_id org_id u.active_organization_id) none db.users db.next_id
        v.registered;
  invited =
      unfold drop_organization in fewer-IsInvited org_id db.invites db.organizations v.invited;
}

pub delete_org-Keeps :
    (token : Option ℕ) (org_id : ℕ) (db : Db) → IsSound db → Keeps (delete_org token org_id db)
unfolding delete_org
delete_org-Keeps token org_id db v =
    Succeeds-bind AskedOwner Sound (require_org_owner db token) _
      (require_org_owner-Asked db token v)
      λ r a. Succeeds-raise_if Sound _ 403 _ _ λ _. Succeeds-raise_if Sound _ 422 _ _ λ _.
        Succeeds-raise_if Sound _ 422 _ _
          λ _. Succeeds-ok Sound _ (drop_organization-IsSound org_id r.1 a.0.sound)

-- Someone who is no member joins an organization that exists.
pub add_membership-IsSound :
    (db : Db) (user : User) (o : ℕ) (role : OrgRole)
    → IsSound db
    → is_owner role ≡ false
    → members user.id o db.memberships ≡ 0
    → orgs o db.organizations ≡ 1
    → suc user.id ≤ db.next_id
    → IsSound (add_membership db user o role true)
add_membership-IsSound db user o role v plain absent exists old = record {
  ownership = add_membership-IsOwned db v.ownership user o role true plain absent exists old;
  registered =
      unfold add_membership in
      active-IsRegistered (is_user user.id) (some o) db.users db.next_id v.registered;
  invited = unfold add_membership in v.invited;
}

-- A new account joins.
pub join_new-IsSound :
    (db : Db) (email full_name : Text) (o : ℕ) (role : OrgRole)
    → IsSound db
    → is_owner role ≡ false
    → orgs o db.organizations ≡ 1
    → find (has_email email) db.users ≡ none
    → IsSound (
        add_membership
          (add_user db email full_name (some o)).1
          (add_user db email full_name (some o)).0
          o
          role
          true)
unfolding add_user
join_new-IsSound db email full_name o role v plain exists absent =
    add_membership-IsSound _ _ o role (add_user-IsSound db email full_name (some o) v absent) plain
      (v.ownership.new_user db.next_id o (omega arith)) exists (omega arith)

pub create_member-Keeps :
    (settings : Settings) (token : Option ℕ) (org_id : ℕ) (email full_name : Text) (role : OrgRole)
    (db : Db)
    → IsSound db
    → Keeps (create_member settings token org_id email full_name role db)
unfolding create_member
create_member-Keeps settings token org_id email full_name role db v =
    Succeeds-bind Asked Sound (require_org_admin db token) _ (require_org_admin-Asked db token v)
      λ r a. Succeeds-raise_if Sound _ 403 _ _ λ here. Succeeds-raise_if Sound _ 422 _ _ λ plain.
        Succeeds-raise_if_some Sound (find (has_email email) r.1.users) 409 _ _ λ absent.
          Succeeds-raise_if Sound _ 403 _ _ λ _. Succeeds-ok Sound _ (
            join_new-IsSound r.1 email full_name org_id role a.sound plain
              (here-orgs r org_id a here) absent)
