-- ===== src/Organizations/Invites.antt =====
-- Invites in server/app/api/organizations.py. Times are in seconds. The e-mail that goes out behind a
-- new link changes no table and is left out. `hash` is the SHA-256 of `hash_invite_token`, and the
-- token of a new link is the argument `raw`.
use corella.Prelude.{
  ℕ, ◌+◌, ◌*◌, Bool, true, not, ◌&&◌, ◌||◌, Option, none, some, [], ◌∷◌, ◌++◌, ◌==◌, ltb, find, any,
  modify, reject, Text, text_eq, nonempty, is_some,
}
use corella.Http.{Result, ok, ◌>>=◌, ◌>>◌, raise_if, or_raise, raise_if_some}
use corella.Organizations.Model.{OrgRole, is_owner, User, OrganizationInvite, Db, Settings}
use corella.Organizations.Service.{get_membership, add_membership}
use corella.Organizations.Deps.{require_org_admin}
use corella.Organizations.Members.{same_org, has_email, add_user}

abbrev pub is_invite : ℕ → OrganizationInvite → Bool
is_invite i r = r.id == i

-- `organization_id == org_id, email == email, accepted_at.is_(None)`
abbrev pub is_pending : ℕ → Text → OrganizationInvite → Bool
is_pending org_id email r =
    r.organization_id == org_id && (text_eq r.email email && not (is_some r.accepted_at))

-- Is an account with this e-mail a member of the organization?
unfoldable pub has_member : Db → ℕ → Text → Bool
has_member db org_id email =
    any
      (λ r.
        r.organization_id == org_id
        && any (λ u. u.id == r.user_id && text_eq u.email email) db.users)
      db.memberships

abbrev pub drop_pending : Option OrganizationInvite → Db → Db
drop_pending none db = db
drop_pending (some pending) db = record db { invites = reject (is_invite pending.id) db.invites }

unfoldable pub invite_expiry : Settings → ℕ → ℕ
invite_expiry settings now = now + settings.invite_expire_days * 86400

unfoldable pub add_invite : Settings → ℕ → ℕ → ℕ → ℕ → Text → OrgRole → Db → Db
unfolding invite_expiry
add_invite settings now token_hash inviter org_id email role db = record db {
  invites =
      db.invites
      ++ record {
        id = db.next_id;
        organization_id = org_id;
        email = email;
        role = role;
        token_hash = token_hash;
        expires_at = invite_expiry settings now;
        invited_by_id = inviter;
        accepted_at = none;
      }
        ∷ [];
  next_id = db.next_id + 1;
}

unfoldable pub revoke_invite : Option ℕ → ℕ → ℕ → Db → Result (Unit {0} × Db)
revoke_invite token org_id invite_id db = do
  asked ← require_org_admin db token
  same_org asked.0 org_id
  invite ← or_raise (find (is_invite invite_id) asked.1.invites) 404 "Invite not found"
  raise_if (not (invite.organization_id == org_id)) 404 "Invite not found"
  let db' : Db = asked.1
  ok (tt, record db' { invites = reject (is_invite invite_id) db'.invites })

-- The invite's e-mail has no account yet: one is made. `password` says whether one was given.
unfoldable pub accept_new : OrganizationInvite → Bool → Text → Db → Result (User × Db)
unfolding add_user add_membership
accept_new invite password full_name db = do
  raise_if (not password || not (nonempty full_name)) 422
      "password and full_name are required to create an account"
  let added = add_user db invite.email full_name (some invite.organization_id)
  ok (added.0, add_membership added.1 added.0 invite.organization_id invite.role true)

-- It has one, and whoever is logged in must be that account.
unfoldable pub accept_existing : OrganizationInvite → User → Option User → Db → Result (User × Db)
unfolding get_membership add_membership
accept_existing invite existing current db = do
  current_user ←
      or_raise current 409
        "An account with this email already exists. Log in, then accept the invite."
  raise_if (not (text_eq current_user.email invite.email)) 403
      "This invite was sent to a different email address"
  raise_if_some (get_membership db existing.id invite.organization_id) 409
      "Already a member of this organization"
  ok (existing, add_membership db existing invite.organization_id invite.role true)

unfoldable pub mark_accepted : ℕ → OrganizationInvite → Db → Db
mark_accepted now invite db = record db {
  invites = modify (is_invite invite.id) (λ r. record r { accepted_at = some now }) db.invites;
}

abbrev pub accept_as :
    OrganizationInvite → Option User → Option User → Bool → Text → Db → Result (User × Db)
accept_as invite none current password full_name db = accept_new invite password full_name db
accept_as invite (some existing) current password full_name db =
    accept_existing invite existing current db

module _ (hash : ℕ → ℕ) where
  unfoldable pub create_invite :
      Settings → ℕ → ℕ → Option ℕ → ℕ → Text → OrgRole → Db → Result (ℕ × Db)
  unfolding has_member add_invite
  create_invite settings now raw token org_id email role db = do
    asked ← require_org_admin db token
    same_org asked.0 org_id
    raise_if (is_owner role) 422 "Cannot invite as owner"
    raise_if (has_member asked.1 org_id email) 409 "That email is already a member"
    let db' : Db = drop_pending (find (is_pending org_id email) asked.1.invites) asked.1
    ok (raw, add_invite settings now (hash raw) asked.0.user.id org_id email role db')

  unfoldable pub resend_invite : Settings → ℕ → ℕ → Option ℕ → ℕ → ℕ → Db → Result (ℕ × Db)
  unfolding invite_expiry
  resend_invite settings now raw token org_id invite_id db = do
    asked ← require_org_admin db token
    same_org asked.0 org_id
    invite ← or_raise (find (is_invite invite_id) asked.1.invites) 404 "Invite not found"
    raise_if (not (invite.organization_id == org_id) || is_some invite.accepted_at) 404
        "Invite not found"
    let db' : Db = asked.1
    ok (
      raw,
      record db' {
        invites =
            modify (is_invite invite_id)
              (λ r. record r { token_hash = hash raw; expires_at = invite_expiry settings now })
              db'.invites;
      },
    )

  unfoldable pub invite_by_token : ℕ → ℕ → Db → Result OrganizationInvite
  invite_by_token now raw db = do
    invite ← or_raise (find (λ r. r.token_hash == hash raw) db.invites) 404 "Invite not found"
    raise_if (is_some invite.accepted_at) 404 "Invite not found"
    raise_if (ltb invite.expires_at now) 410 "This invite has expired"
    ok invite

  unfoldable pub accept_invite : ℕ → ℕ → Bool → Text → Option User → Db → Result (User × Db)
  unfolding invite_by_token accept_new accept_existing mark_accepted
  accept_invite now raw password full_name current db = do
    invite ← invite_by_token now raw db
    accepted ←
        accept_as invite (find (has_email invite.email) db.users) current password full_name db
    ok (accepted.0, mark_accepted now invite accepted.1)
