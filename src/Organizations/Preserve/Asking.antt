-- ===== src/Organizations/Preserve/Asking.antt =====
-- What the dependencies of server/app/api/deps.py establish for the handlers behind them.
use corella.Prelude.{
  ℕ, ◌≡◌, refl, true, Option, none, some, find, find-some, find-listed, arith, ◌==◌, Option-cases,
  inl, inr,
}
use mathlib.Core.Path.{subst}
use corella.Http.{
  Result, Succeeds, Succeeds-or_raise, Succeeds-bind, Succeeds-raise_if, Succeeds-ok, ok,
  http_exception,
}
use corella.Organizations.Model.{
  is_owner, User, Organization, OrganizationMembership, Db, AuthContext, is_user, is_organization,
  is_membership,
}
use corella.Organizations.Service.{
  home_of, get_active, get_membership, stored_active, pick_active, or_pick, store_pick,
  resolve_active_membership, set_active,
}
use corella.Organizations.Deps.{
  get_current_user, get_auth_context, require_org_admin, require_org_owner,
}
use corella.Organizations.Ownership.{IsListed}
use corella.Organizations.Tables.{IsSound, active-IsRegistered}

-- The tables are sound, and the caller's membership stands in them.
pub record Asked (asked : AuthContext × Db) : Type 0 where
  pub sound : IsSound asked.1
  pub listed : IsListed asked.0.membership asked.1
  pub home : asked.0.organization.id ≡ asked.0.membership.organization_id

pub set_active-IsSound :
    (u : ℕ) (active : Option ℕ) (db : Db) → IsSound db → IsSound (set_active u active db)
unfolding set_active
set_active-IsSound u active db v = record {
  ownership = v.ownership;
  registered = active-IsRegistered (is_user u) active db.users db.next_id v.registered;
  invited = v.invited;
}

pub home_of-some :
    (db : Db) (om : Option OrganizationMembership) (o : Organization) (m : OrganizationMembership)
    → home_of db om ≡ some (o, m)
    → (om ≡ some m) × (find (is_organization m.organization_id) db.organizations ≡ some o)
unfolding home_of
home_of-some db none o m h = cc
home_of-some db (some n) o m h =
    elim (Option-cases (find (is_organization n.organization_id) db.organizations)) [
      | inl absent ↦ ground arith
      | inr (p, found) ↦ ground arith
    ]

get_active-IsListed :
    (db : Db) (u : ℕ) (active : Option ℕ) (m : OrganizationMembership)
    → get_active db u active ≡ some m
    → IsListed m db
unfolding get_membership
get_active-IsListed db u none m h = cc
get_active-IsListed db u (some a) m h =
    λ q k. find-listed (is_membership u a) q db.memberships m h k

-- A resolved membership stands in tables that are as sound as before.
abbrev Resolved : Organization × OrganizationMembership × Db → Type 0
Resolved r = IsSound r.2 × IsListed r.1 r.2 × (r.0.id ≡ r.1.organization_id)

pub home_id :
    (db : Db) (o : Organization) (m : OrganizationMembership)
    → find (is_organization m.organization_id) db.organizations ≡ some o
    → o.id ≡ m.organization_id
home_id db o m h =
    ground (arith, find-some (is_organization m.organization_id) db.organizations o h)

-- Of an option, if there is something in it.
abbrev OnSome {ℓ κ} : {A : Type ℓ} → (A → Type κ) → Option A → Type κ
OnSome P none = Unit
OnSome P (some a) = P a

OnSome-some {ℓ κ} :
    {A : Type ℓ} (P : A → Type κ) (o : Option A) (a : A) → OnSome P o → o ≡ some a → P a
OnSome-some P o a h e = subst (OnSome P) e h

store_pick-Resolved :
    (db : Db) (u : ℕ) (picked : Option (Organization × OrganizationMembership))
    → IsSound db
    → home_of db (find (λ r. r.user_id == u) db.memberships) ≡ picked
    → OnSome Resolved (store_pick db u picked)
unfolding set_active
store_pick-Resolved db u none v e = tt
store_pick-Resolved db u (some (o, m)) v e =
    let (found, home) = home_of-some db (find (λ r. r.user_id == u) db.memberships) o m e in
    (
      set_active-IsSound u (some o.id) db v,
      λ q k. find-listed (λ r. r.user_id == u) q db.memberships m found k,
      home_id db o m home,
    )

or_pick-Resolved :
    (db : Db) (user : User) (stored : Option (Organization × OrganizationMembership))
    → IsSound db
    → stored_active db user ≡ stored
    → OnSome Resolved (or_pick db user stored)
unfolding stored_active pick_active
or_pick-Resolved db user none v e = store_pick-Resolved db user.id _ v refl
or_pick-Resolved db user (some (o, m)) v e =
    let (found, home) = home_of-some db (get_active db user.id user.active_organization_id) o m e in
    (v, get_active-IsListed db user.id user.active_organization_id m found, home_id db o m home)

-- `get_auth_context` and the stricter dependencies leave sound tables, with the caller's membership.
pub get_auth_context-Asked :
    (db : Db) (token : Option ℕ) → IsSound db → Succeeds Asked (get_auth_context db token)
unfolding get_auth_context
get_auth_context-Asked db token v =
    Succeeds-bind (λ user. Unit {0}) Asked (get_current_user db token) _
      (any_user (get_current_user db token))
      λ user _. Succeeds-or_raise Asked (resolve_active_membership db user) 403 _ _ λ r e.
        let (sound, listed, home) =
          OnSome-some Resolved (resolve_active_membership db user) r
            (unfold resolve_active_membership in
              or_pick-Resolved db user (stored_active db user) v refl)
            e in
        Succeeds-ok Asked _ (record { sound = sound; listed = listed; home = home })
  where
    any_user : (r : Result User) → Succeeds (λ user. Unit {0}) r
    any_user (ok user) = unfold Succeeds in tt
    any_user (http_exception status detail) = unfold Succeeds in tt

pub require_org_admin-Asked :
    (db : Db) (token : Option ℕ) → IsSound db → Succeeds Asked (require_org_admin db token)
unfolding require_org_admin
require_org_admin-Asked db token v =
    Succeeds-bind Asked Asked (get_auth_context db token) _ (get_auth_context-Asked db token v)
      λ ctx a. Succeeds-raise_if Asked _ 403 _ (ok ctx) λ _. Succeeds-ok Asked ctx a

-- Behind `require_org_owner` the caller's membership is the owner's.
abbrev pub AskedOwner : AuthContext × Db → Type 0
AskedOwner r = Asked r × (is_owner r.0.membership.role ≡ true)

pub require_org_owner-Asked :
    (db : Db) (token : Option ℕ) → IsSound db → Succeeds AskedOwner (require_org_owner db token)
unfolding require_org_owner
require_org_owner-Asked db token v =
    Succeeds-bind Asked AskedOwner (get_auth_context db token) _ (get_auth_context-Asked db token v)
      λ ctx a.
        Succeeds-raise_if AskedOwner _ 403 _ (ok ctx)
          λ owns. Succeeds-ok AskedOwner ctx (a, ground arith)
