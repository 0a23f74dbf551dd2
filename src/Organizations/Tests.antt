-- ===== src/Organizations/Tests.antt =====
-- Examples for the model of organizations: an office with an owner, an admin and a member, two of them
-- in a group, and an open invite.
use corella.Prelude.{
  ℕ, ◌*◌, ◌+◌, find, modify, any, keep, reject, ◌≡◌, refl, true, false, none, some, List, [], ◌∷◌,
  arith, tally, codes,
}
use corella.Http.{ok, http_exception, ◌>>=◌, or_raise, raise_if, raise_if_some}
use corella.Organizations.Model.{
  owner, member, User, Organization, OrganizationMembership, OrganizationInvite, Db, Settings,
  AuthContext,
}
use corella.Organizations.Service.{resolve_active_membership, users_share_group}
use corella.Organizations.Deps.{get_auth_context, require_org_owner, require_org_admin}
use corella.Organizations.Members.{leave_org, transfer_ownership, register, remove_member}
use corella.Organizations.Invites.{create_invite, accept_invite}
use corella.Organizations.Requests.{
  Request, act, step, run, registers, acts, accepts, deletes, creates_invite, transfers, leaves,
}
use corella.Organizations.Tables.{IsSound}
use corella.Organizations.Preserve.Runs.{run-IsSound}
use corella.Organizations.Permits.{act_refused}
use corella.Organizations.SingleUse.{accept_once}
use corella.Organizations.Sharing.{removed_shares}
use corella.Organizations.Groups.{set_group_members}

abbrev settings : Settings
settings = record {
  allow_public_registration = true;
  max_orgs_per_user = 10;
  invite_expire_days = 7;
}

abbrev hash : ℕ → ℕ
hash n = n * 2 + 1

abbrev ann : User
ann = record {
  id = 1;
  email = codes "ann@x";
  full_name = codes "Ann";
  is_super_admin = false;
  active_organization_id = some 2;
}

abbrev bob : User
bob = record {
  id = 3;
  email = codes "bob@x";
  full_name = codes "Bob";
  is_super_admin = false;
  active_organization_id = none;
}

abbrev office : Organization
office = record { id = 2; name = codes "Ann Org"; is_instance_org = false }

abbrev ann_owns : OrganizationMembership
ann_owns = record { user_id = 1; organization_id = 2; role = owner }

abbrev bob_works : OrganizationMembership
bob_works = record { user_id = 3; organization_id = 2; role = member }

abbrev eve_invite : OrganizationInvite
eve_invite = record {
  id = 6;
  organization_id = 2;
  email = codes "eve@x";
  role = member;
  token_hash = 15;
  expires_at = 500;
  invited_by_id = 1;
  accepted_at = none;
}

abbrev db : Db
db = record {
  users = ann ∷ bob ∷ [];
  organizations = office ∷ [];
  memberships = ann_owns ∷ bob_works ∷ [];
  invites = eve_invite ∷ [];
  groups = record { id = 5; organization_id = 2; name = codes "Team" } ∷ [];
  group_memberships =
      record { user_id = 1; group_id = 5 } ∷ record { user_id = 3; group_id = 5 } ∷ [];
  next_id = 7;
}

abbrev empty : Db
empty = record {
  users = [];
  organizations = [];
  memberships = [];
  invites = [];
  groups = [];
  group_memberships = [];
  next_id = 0;
}

empty-IsSound : IsSound empty
unfolding tally
empty-IsSound = record {
  ownership = record {
    one_owner = λ o. refl;
    one_org = λ o. omega arith;
    homes = λ u o. omega arith;
    new_user = λ n o h. refl;
    new_org = λ n h. refl;
  };
  registered = record {
    one_email = λ e. omega arith;
    one_account = λ n. omega arith;
    new_account = λ n h. refl;
  };
  invited = record { plain = refl; at_home = λ o h. refl; one_pending = λ o e. omega arith };
}

-- Ann registers, invites Bob, who accepts, hands over to him, and leaves.
abbrev story : List Request
story =
    registers (codes "ann@x") (codes "Ann")
    ∷ acts (some 0) (creates_invite 100 7 1 (codes "bob@x") member)
    ∷ accepts 200 7 true (codes "Bob") none
    ∷ acts (some 0) (transfers 1 3)
    ∷ acts (some 0) (leaves 1)
    ∷ []

story_ends :
    (run settings hash story empty).memberships
    ≡ record { user_id = 3; organization_id = 1; role = owner } ∷ []
unfolding run step leave_org ◌>>=◌ get_auth_context find transfer_ownership require_org_owner
    accept_invite create_invite require_org_admin register raise_if_some modify
    resolve_active_membership any reject
story_ends = refl

run-IsSound_example : IsSound (run settings hash story empty)
run-IsSound_example = run-IsSound settings hash story empty empty-IsSound

abbrev asked_bob : AuthContext × Db
asked_bob = (
  record {
    user = record bob { active_organization_id = some 2 };
    organization = office;
    membership = bob_works;
  },
  record db { users = ann ∷ record bob { active_organization_id = some 2 } ∷ [] },
)

bob_asks : get_auth_context db (some 3) ≡ ok asked_bob
unfolding get_auth_context find resolve_active_membership modify
bob_asks = refl

act_refused_example : act settings hash (some 3) (deletes 2) db ≡ asked_bob.1
act_refused_example = act_refused settings hash db (some 3) asked_bob bob_asks (deletes 2) refl

abbrev eve : User
eve = record {
  id = 7;
  email = codes "eve@x";
  full_name = codes "Eve";
  is_super_admin = false;
  active_organization_id = some 2;
}

abbrev joined : User × Db
joined = (
  eve,
  record db {
    users = ann ∷ bob ∷ eve ∷ [];
    memberships =
        ann_owns ∷ bob_works ∷ record { user_id = 7; organization_id = 2; role = member } ∷ [];
    invites = record eve_invite { accepted_at = some 400 } ∷ [];
    next_id = 8;
  },
)

eve_joins : accept_invite hash 400 7 true (codes "Eve") none db ≡ ok joined
unfolding accept_invite ◌>>=◌ or_raise raise_if find modify
eve_joins = refl

eve_is_late :
    accept_invite hash 501 7 true (codes "Eve") none db
    ≡ http_exception 410 "This invite has expired"
unfolding accept_invite ◌>>=◌ or_raise raise_if find
eve_is_late = refl

accept_once_example :
    accept_invite hash 450 7 true (codes "Eve") (some eve) joined.1
    ≡ http_exception 404 "Invite not found"
accept_once_example =
    accept_once hash 400 450 7 true true (codes "Eve") (codes "Eve") none (some eve) db joined
      eve_joins

abbrev removed : Unit {0} × Db
removed = (tt, record db { memberships = ann_owns ∷ [] })

bob_goes : remove_member (some 1) 2 3 db ≡ ok removed
unfolding remove_member ◌>>=◌ require_org_admin find resolve_active_membership modify reject
bob_goes = refl

removed_shares_example : users_share_group removed.1 1 3 2 ≡ users_share_group db 1 3 2
removed_shares_example = removed_shares (some 1) 2 3 db removed bob_goes 1 3 2

bob_shares_yet : users_share_group removed.1 1 3 2 ≡ true
unfolding users_share_group any keep
bob_shares_yet = refl

abbrev regrouped : Unit {0} × Db
regrouped = (
  tt,
  record db {
    group_memberships =
        record { user_id = 3; group_id = 5 } ∷ record { user_id = 1; group_id = 5 } ∷ [];
  },
)

ann_regroups : set_group_members (some 1) 2 5 (3 ∷ 1 ∷ []) db ≡ ok regrouped
unfolding set_group_members ◌>>=◌ require_org_admin find resolve_active_membership modify reject any
ann_regroups = refl

twice_in_a_group :
    set_group_members (some 1) 2 5 (3 ∷ 3 ∷ []) db ≡ http_exception 500 "Internal Server Error"
unfolding set_group_members ◌>>=◌ require_org_admin find resolve_active_membership modify reject any
twice_in_a_group = refl
