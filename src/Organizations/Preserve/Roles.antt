-- ===== src/Organizations/Preserve/Roles.antt =====
-- The requests that change or end a membership in server/app/api/organizations.py keep the tables
-- sound.
use corella.Prelude.{
  ℕ, ◌≡◌, sym, ◌∙◌, true, false, Option, none, some, find-some, find-listed, arith, ◌==◌, ◌&&◌,
}
use mathlib.Core.Path.{subst₂}
use corella.Http.{Succeeds-or_raise, Succeeds-bind, Succeeds-raise_if, Succeeds-ok}
use corella.Organizations.Model.{
  OrgRole, is_owner, OrganizationMembership, Db, is_membership, is_some_id,
}
use corella.Organizations.Service.{get_membership}
use corella.Organizations.Deps.{get_auth_context, require_org_admin, require_org_owner}
use corella.Organizations.Members.{
  change_role, set_role, drop_membership, clear_active, update_member, remove_member,
  transfer_ownership, leave_org,
}
use corella.Organizations.Ownership.{
  IsOwned, IsListed, set_role-IsOwned, drop_membership-IsOwned, transfer-IsOwned,
}
use corella.Organizations.Tables.{IsSound, active-IsRegistered}
use corella.Organizations.Preserve.Asking.{
  Asked, AskedOwner, set_active-IsSound, get_auth_context-Asked, require_org_admin-Asked,
  require_org_owner-Asked,
}
use corella.Organizations.Preserve.Accounts.{Sound, Keeps}
use corella.Organizations.Preserve.Members.{same_home}

-- A membership that was looked up is the one that was asked for, and stands in the table.
pub found_row :
    (db : Db) (u o : ℕ) (m : OrganizationMembership)
    → get_membership db u o ≡ some m
    → IsListed m db × (m.user_id ≡ u) × (m.organization_id ≡ o)
unfolding get_membership
found_row db u o m h =
    let key : is_membership u o m ≡ true = (find-some (is_membership u o) db.memberships m h).0 in
    (λ q k. find-listed (is_membership u o) q db.memberships m h k, ground arith, ground arith)

set_role-IsSound :
    (db : Db) (u o : ℕ) (m : OrganizationMembership) (role : OrgRole)
    → IsSound db
    → get_membership db u o ≡ some m
    → is_owner m.role ≡ false
    → is_owner role ≡ false
    → IsSound (set_role u o role db)
set_role-IsSound db u o m role v h plain plain' =
    let (listed, mu, mo) = found_row db u o m h in
    record {
      ownership =
          subst₂ (λ u o. IsOwned (set_role u o role db)) mu mo
            (set_role-IsOwned db v.ownership m listed role plain plain');
      registered = unfold set_role in v.registered;
      invited = unfold set_role in v.invited;
    }

change_role-Keeps :
    (db : Db) (u o : ℕ) (m : OrganizationMembership) (role : Option OrgRole)
    → IsSound db
    → get_membership db u o ≡ some m
    → is_owner m.role ≡ false
    → Keeps (change_role u o role db)
change_role-Keeps db u o m none v h plain = Succeeds-ok Sound _ v
change_role-Keeps db u o m (some role) v h plain =
    Succeeds-raise_if Sound _ 422 _ _
      λ plain'. Succeeds-ok Sound _ (set_role-IsSound db u o m role v h plain plain')

pub update_member-Keeps :
    (token : Option ℕ) (org_id user_id : ℕ) (role : Option OrgRole) (db : Db)
    → IsSound db
    → Keeps (update_member token org_id user_id role db)
unfolding update_member
update_member-Keeps token org_id user_id role db v =
    Succeeds-bind Asked Sound (require_org_admin db token) _ (require_org_admin-Asked db token v)
      λ r a. Succeeds-raise_if Sound _ 403 _ _ λ _.
        Succeeds-or_raise Sound (get_membership r.1 user_id org_id) 404 _ _ λ m h.
          Succeeds-raise_if Sound _ 403 _ _
            λ plain. change_role-Keeps r.1 user_id org_id m role a.sound h plain

drop_membership-IsSound :
    (db : Db) (m : OrganizationMembership)
    → IsSound db
    → IsListed m db
    → is_owner m.role ≡ false
    → IsSound (drop_membership m.user_id m.organization_id db)
drop_membership-IsSound db m v listed plain = record {
  ownership = drop_membership-IsOwned db v.ownership m listed plain;
  registered = unfold drop_membership in v.registered;
  invited = unfold drop_membership in v.invited;
}

clear_active-IsSound : (u o : ℕ) (db : Db) → IsSound db → IsSound (clear_active u o db)
unfolding clear_active
clear_active-IsSound u o db v = record {
  ownership = v.ownership;
  registered =
      active-IsRegistered (λ x. x.id == u && is_some_id o x.active_organization_id) none db.users
        db.next_id v.registered;
  invited = v.invited;
}

pub remove_member-Keeps :
    (token : Option ℕ) (org_id user_id : ℕ) (db : Db)
    → IsSound db
    → Keeps (remove_member token org_id user_id db)
unfolding remove_member
remove_member-Keeps token org_id user_id db v =
    Succeeds-bind Asked Sound (require_org_admin db token) _ (require_org_admin-Asked db token v)
      λ r a. Succeeds-raise_if Sound _ 403 _ _ λ _.
        Succeeds-or_raise Sound (get_membership r.1 user_id org_id) 404 _ _ λ m h.
          Succeeds-raise_if Sound _ 403 _ _ λ plain.
            let (listed, mu, mo) = found_row r.1 user_id org_id m h in
            Succeeds-ok Sound _ (
              clear_active-IsSound user_id org_id (drop_membership user_id org_id r.1) (
                subst₂ (λ u o. IsSound (drop_membership u o r.1)) mu mo
                  (drop_membership-IsSound r.1 m a.sound listed plain)))

pub transfer_ownership-Keeps :
    (token : Option ℕ) (org_id user_id : ℕ) (db : Db)
    → IsSound db
    → Keeps (transfer_ownership token org_id user_id db)
unfolding transfer_ownership
transfer_ownership-Keeps token org_id user_id db v =
    Succeeds-bind AskedOwner Sound (require_org_owner db token) _
      (require_org_owner-Asked db token v)
      λ r a. Succeeds-raise_if Sound _ 403 _ _ λ here.
        Succeeds-or_raise Sound (get_membership r.1 user_id org_id) 404 _ _ λ t h.
          let (listed, tu, to) = found_row r.1 user_id org_id t h in
          Succeeds-ok Sound _ (record {
            ownership =
                transfer-IsOwned r.1 a.0.sound.ownership r.0.membership a.0.listed t a.1
                  (to ∙ sym (same_home r org_id a.0 here))
                  (listed (is_membership t.user_id t.organization_id) (ground arith));
            registered = unfold set_role in a.0.sound.registered;
            invited = unfold set_role in a.0.sound.invited;
          })

pub leave_org-Keeps :
    (token : Option ℕ) (org_id : ℕ) (db : Db) → IsSound db → Keeps (leave_org token org_id db)
unfolding leave_org
leave_org-Keeps token org_id db v =
    Succeeds-bind Asked Sound (get_auth_context db token) _ (get_auth_context-Asked db token v)
      λ r a. Succeeds-raise_if Sound _ 403 _ _ λ _. Succeeds-raise_if Sound _ 422 _ _ λ plain.
        Succeeds-ok Sound _ (
          set_active-IsSound r.0.user.id none _
            (drop_membership-IsSound r.1 r.0.membership a.sound a.listed plain))
