-- ===== src/Organizations/Permits.antt =====
-- Who may do what: the guards of server/app/api/organizations.py against a table of permissions.
use corella.Prelude.{ℕ, ◌≡◌, Bool, false, ◌&&◌, not, Option, ◌==◌, arith}
use corella.Http.{Result, ok, ◌>>=◌, ◌>>◌, raise_if, after}
use corella.Organizations.Model.{OrgRole, is_owner, is_admin, Db, Settings, AuthContext}
use corella.Organizations.Service.{is_org_owner, is_org_admin}
use corella.Organizations.Deps.{get_auth_context, require_org_admin, require_org_owner}
use corella.Organizations.Members.{
  same_org, rename_org, delete_org, create_member, update_member, remove_member, transfer_ownership,
  leave_org,
}
use corella.Organizations.Invites.{create_invite, resend_invite, revoke_invite}
use corella.Organizations.Groups.{create_group, delete_group, set_group_members}
use corella.Organizations.Requests.{
  Action, settled, act, renames, deletes, creates_member, updates_member, removes_member, transfers,
  leaves, creates_invite, resends_invite, revokes_invite, creates_group, deletes_group,
  sets_group_members,
}

-- The organization that an action is about.
abbrev pub target : Action → ℕ
target (renames o name) = o
target (deletes o) = o
target (creates_member o email full_name role) = o
target (updates_member o u role) = o
target (removes_member o u) = o
target (transfers o u) = o
target (leaves o) = o
target (creates_invite now raw o email role) = o
target (resends_invite now raw o i) = o
target (revokes_invite o i) = o
target (creates_group o name) = o
target (deletes_group o g) = o
target (sets_group_members o g us) = o

-- The table: the owner alone deletes an organization and transfers it, anyone leaves who does not own
-- it, and the rest is for the owner and the admins.
abbrev pub role_suffices : OrgRole → Action → Bool
role_suffices role (deletes o) = is_owner role
role_suffices role (transfers o u) = is_owner role
role_suffices role (leaves o) = not (is_owner role)
role_suffices role (renames o name) = is_admin role
role_suffices role (creates_member o email full_name given) = is_admin role && not (is_owner given)
role_suffices role (updates_member o u given) = is_admin role
role_suffices role (removes_member o u) = is_admin role
role_suffices role (creates_invite now raw o email given) = is_admin role && not (is_owner given)
role_suffices role (resends_invite now raw o i) = is_admin role
role_suffices role (revokes_invite o i) = is_admin role
role_suffices role (creates_group o name) = is_admin role
role_suffices role (deletes_group o g) = is_admin role
role_suffices role (sets_group_members o g us) = is_admin role

abbrev pub permits : AuthContext → Action → Bool
permits ctx action =
    ctx.organization.id == target action && role_suffices ctx.membership.role action

module _ {A : Type 0} (db : Db) (token : Option ℕ) (asked : AuthContext × Db) (o : ℕ) (s : Db)
    (e : get_auth_context db token ≡ ok asked) where
  admin_refused :
      (k : AuthContext × Db → Result (A × Db))
      → (asked.0.organization.id == o && is_admin asked.0.membership.role) ≡ false
      → after s (require_org_admin db token >>= λ r. same_org r.0 o >> k r) ≡ s
  unfolding require_org_admin ◌>>=◌ raise_if is_org_admin
  admin_refused k h = rw e (ground arith)

  -- With one more condition behind the first two.
  admin_refused_also :
      (test : Bool) (status : ℕ) (detail : _) (k : AuthContext × Db → Result (A × Db))
      → (asked.0.organization.id == o && (is_admin asked.0.membership.role && not test)) ≡ false
      → after s (
          require_org_admin db token >>= λ r.
          same_org r.0 o >> (raise_if test status detail >> k r))
        ≡ s
  unfolding require_org_admin ◌>>=◌ raise_if is_org_admin
  admin_refused_also test status detail k h = rw e (ground arith)

  owner_refused :
      (k : AuthContext × Db → Result (A × Db))
      → (asked.0.organization.id == o && is_owner asked.0.membership.role) ≡ false
      → after s (require_org_owner db token >>= λ r. same_org r.0 o >> k r) ≡ s
  unfolding require_org_owner ◌>>=◌ raise_if is_org_owner
  owner_refused k h = rw e (ground arith)

  leave_refused :
      (k : AuthContext × Db → Result (A × Db))
      → (asked.0.organization.id == o && not (is_owner asked.0.membership.role)) ≡ false
      → after s (
          get_auth_context db token >>= λ r.
          same_org r.0 o
          >> (raise_if (is_owner r.0.membership.role) 422 "Transfer ownership before leaving"
              >> k r))
        ≡ s
  unfolding ◌>>=◌ raise_if
  leave_refused k h = rw e (ground arith)

module _ (settings : Settings) (hash : ℕ → ℕ) (db : Db) (token : Option ℕ)
    (asked : AuthContext × Db) (e : get_auth_context db token ≡ ok asked) where
  settled_as : settled db token ≡ asked.1
  unfolding settled
  settled_as = rw e

  -- What the table of permissions does not permit, for the caller's role in the active organization, is
  -- refused: the action leaves nothing but what resolving the active organization stored.
  pub act_refused :
      (action : Action)
      → permits asked.0 action ≡ false
      → act settings hash token action db ≡ asked.1
  unfolding act
  act_refused (renames o name) h =
      rw settled_as (unfold rename_org in admin_refused db token asked o asked.1 e _ h)
  act_refused (deletes o) h =
      rw settled_as (unfold delete_org in owner_refused db token asked o asked.1 e _ h)
  act_refused (creates_member o email full_name role) h = rw settled_as (
      unfold create_member in
      admin_refused_also db token asked o asked.1 e (is_owner role) 422 _ _ h)
  act_refused (updates_member o u role) h =
      rw settled_as (unfold update_member in admin_refused db token asked o asked.1 e _ h)
  act_refused (removes_member o u) h =
      rw settled_as (unfold remove_member in admin_refused db token asked o asked.1 e _ h)
  act_refused (transfers o u) h =
      rw settled_as (unfold transfer_ownership in owner_refused db token asked o asked.1 e _ h)
  act_refused (leaves o) h =
      rw settled_as (unfold leave_org in leave_refused db token asked o asked.1 e _ h)
  act_refused (creates_invite now raw o email role) h = rw settled_as (
      unfold create_invite in
      admin_refused_also db token asked o asked.1 e (is_owner role) 422 _ _ h)
  act_refused (resends_invite now raw o i) h =
      rw settled_as (unfold resend_invite in admin_refused db token asked o asked.1 e _ h)
  act_refused (revokes_invite o i) h =
      rw settled_as (unfold revoke_invite in admin_refused db token asked o asked.1 e _ h)
  act_refused (creates_group o name) h =
      rw settled_as (unfold create_group in admin_refused db token asked o asked.1 e _ h)
  act_refused (deletes_group o g) h =
      rw settled_as (unfold delete_group in admin_refused db token asked o asked.1 e _ h)
  act_refused (sets_group_members o g us) h =
      rw settled_as (unfold set_group_members in admin_refused db token asked o asked.1 e _ h)
