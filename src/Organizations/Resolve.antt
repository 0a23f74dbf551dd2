-- ===== src/Organizations/Resolve.antt =====
-- The active organization that `get_auth_context` of server/app/api/deps.py resolves and stores.
use corella.Prelude.{
  ℕ, ◌≡◌, refl, sym, Option, none, some, List, [], ◌∷◌, ◌==◌, find, find-some, find-modify, arith,
  Option-cases, inl, inr, ◌⊎◌,
}
use mathlib.Core.Path.{subst}
use corella.Http.{
  ok, ◌>>=◌, or_raise, Succeeds, Succeeds-of, Succeeds-bind, Succeeds-map, Succeeds-or_raise,
  Succeeds-ok,
}
use corella.Organizations.Model.{
  User, Organization, OrganizationMembership, Db, AuthContext, is_user, is_organization,
  is_membership,
}
use corella.Organizations.Service.{
  get_membership, set_active, home_of, stored_active, pick_active, resolve_active_membership,
}
use corella.Organizations.Deps.{get_current_user, get_auth_context}
use corella.Organizations.Preserve.Asking.{home_of-some, home_id}

-- A user's first membership is the first one in its organization.
find-first :
    (u : ℕ) (xs : List OrganizationMembership) (m : OrganizationMembership)
    → find (λ r. r.user_id == u) xs ≡ some m
    → find (is_membership u m.organization_id) xs ≡ some m
unfolding find
find-first u [] m h = cc
find-first u (r ∷ xs) m h = ground (arith, find-first u xs m)

-- What is stored resolves to itself, with nothing more to store.
stored-resolves :
    (db : Db) (user : User) (o : Organization) (m : OrganizationMembership)
    → user.active_organization_id ≡ some o.id
    → find (is_membership user.id o.id) db.memberships ≡ some m
    → find (is_organization m.organization_id) db.organizations ≡ some o
    → resolve_active_membership db user ≡ some (o, m, db)
unfolding resolve_active_membership stored_active home_of get_membership
stored-resolves db user o m active h k = rw (active, h, k)

-- The store is left alone, or the pick among the memberships is stored.
resolve-cases :
    (db : Db) (user : User) (o : Organization) (m : OrganizationMembership) (d : Db)
    → resolve_active_membership db user ≡ some (o, m, d)
    → (d ≡ db)
      ⊎ ((d ≡ set_active user.id (some o.id) db)
          × (home_of db (find (λ r. r.user_id == user.id) db.memberships) ≡ some (o, m)))
unfolding resolve_active_membership pick_active
resolve-cases db user o m d h = elim (Option-cases (stored_active db user)) [
  | inl absent ↦
      elim (Option-cases (home_of db (find (λ r. r.user_id == user.id) db.memberships))) [
        | inl homeless ↦ absurd (ground arith)
        | inr (picked, found) ↦ ground arith
      ]
  | inr (stored, found) ↦ ground arith
]

picked-resolves :
    (db : Db) (user : User) (o : Organization) (m : OrganizationMembership)
    → home_of db (find (λ r. r.user_id == user.id) db.memberships) ≡ some (o, m)
    → let db' = set_active user.id (some o.id) db in
      resolve_active_membership db' (record user { active_organization_id = some o.id })
      ≡ some (o, m, db')
unfolding set_active
picked-resolves db user o m h =
    let (found, home) = home_of-some db (find (λ r. r.user_id == user.id) db.memberships) o m h in
    stored-resolves (set_active user.id (some o.id) db)
      (record user { active_organization_id = some o.id }) o m refl
      (rw (home_id db o m home) (find-first user.id db.memberships m found)) home

-- What stands behind a context: an account, and what resolving its active organization gave.
record IsResolved (db : Db) (token : Option ℕ) (r : AuthContext × Db) : Type 0 where
  account : User
  token_of : token ≡ some account.id
  found : find (is_user account.id) db.users ≡ some account
  resolved : resolve_active_membership db account ≡ some (r.0.organization, r.0.membership, r.1)
  context : r.0.user ≡ record account { active_organization_id = some r.0.organization.id }

IsAccount : Db → Option ℕ → User → Type 0
IsAccount db token user = (token ≡ some user.id) × (find (is_user user.id) db.users ≡ some user)

found-IsAccount :
    (db : Db) (token : Option ℕ) (u : ℕ) (o : Option User)
    → token ≡ some u
    → find (is_user u) db.users ≡ o
    → Succeeds (IsAccount db token) (or_raise o 401 "Could not validate credentials")
unfolding Succeeds or_raise IsAccount
found-IsAccount db token u none e h = tt
found-IsAccount db token u (some user) e h =
    let same : user.id ≡ u = ground (arith, find-some (is_user u) db.users user h) in
    (
      subst (λ v. token ≡ some v) (sym same) e,
      subst (λ v. find (is_user v) db.users ≡ some user) (sym same) h,
    )

get_current_user-IsAccount :
    (db : Db) (token : Option ℕ) → Succeeds (IsAccount db token) (get_current_user db token)
unfolding get_current_user
get_current_user-IsAccount db token =
    Succeeds-or_raise (IsAccount db token) token 401 _ _ λ u e. found-IsAccount db token u _ e refl

get_auth_context-IsResolved :
    (db : Db) (token : Option ℕ) → Succeeds (IsResolved db token) (get_auth_context db token)
unfolding get_auth_context IsAccount
get_auth_context-IsResolved db token =
    Succeeds-bind (IsAccount db token) (IsResolved db token) _ _
      (get_current_user-IsAccount db token)
      λ user a.
        Succeeds-or_raise (IsResolved db token) (resolve_active_membership db user) 403 _ _ λ r h.
          Succeeds-ok (IsResolved db token) _
            (record { account = user; token_of = a.0; found = a.1; resolved = h; context = refl })

-- With an account and what it resolves to, the context is this one.
context_of :
    (d : Db) (user : User) (r : AuthContext × Db)
    → find (is_user user.id) d.users ≡ some user
    → resolve_active_membership d user ≡ some (r.0.organization, r.0.membership, r.1)
    → r.0.user ≡ record user { active_organization_id = some r.0.organization.id }
    → get_auth_context d (some user.id) ≡ ok r
unfolding get_auth_context get_current_user or_raise ◌>>=◌
context_of d user r h k e = rw (h, k, sym e)

found_active :
    (db : Db) (user : User) (active : Option ℕ)
    → find (is_user user.id) db.users ≡ some user
    → find (is_user user.id) (set_active user.id active db).users
      ≡ some (record user { active_organization_id = active })
unfolding set_active
found_active db user active h =
    find-modify (is_user user.id) (is_user user.id)
      (λ u. record u { active_organization_id = active }) db.users (λ x. refl) user h (ground arith)

resolved_again :
    (db : Db) (token : Option ℕ) (r : AuthContext × Db)
    → IsResolved db token r
    → get_auth_context r.1 token ≡ ok r
resolved_again db token r v =
    elim (resolve-cases db v.account r.0.organization r.0.membership r.1 v.resolved) [
      | inl kept ↦ rw v.token_of (
          context_of r.1 v.account r
            (subst (λ d. find (is_user v.account.id) d.users ≡ some v.account) (sym kept) v.found)
            (subst
              (λ d.
                resolve_active_membership d v.account
                ≡ some (r.0.organization, r.0.membership, r.1))
              (sym kept) v.resolved)
            v.context)
      | inr (stored, home) ↦
          let active : Option ℕ = some r.0.organization.id in
          let user : User = record v.account { active_organization_id = active } in
          rw v.token_of (
            context_of r.1 user r
              (subst (λ d. find (is_user user.id) d.users ≡ some user) (sym stored)
                (found_active db v.account active v.found))
              (subst
                (λ d. resolve_active_membership d user ≡ some (r.0.organization, r.0.membership, d))
                (sym stored) (picked-resolves db v.account r.0.organization r.0.membership home))
              v.context)
    ]

-- A caller's context, once resolved, resolves to itself, and nothing more is stored.
pub settle_once :
    (db : Db) (token : Option ℕ) (r : AuthContext × Db)
    → get_auth_context db token ≡ ok r
    → get_auth_context r.1 token ≡ ok r
settle_once db token r h =
    resolved_again db token r
      (Succeeds-of (IsResolved db token) _ r h (get_auth_context-IsResolved db token))

-- All that resolving a context can change is an active organization.
abbrev pub Settles : {A : Type 0} → Db → A × Db → Type 0
Settles db r = (r.1 ≡ db) ⊎ ((u : ℕ) × (active : Option ℕ) × (r.1 ≡ set_active u active db))

resolved-Settles :
    (db : Db) (token : Option ℕ) (r : AuthContext × Db) → IsResolved db token r → Settles db r
resolved-Settles db token r v =
    elim (resolve-cases db v.account r.0.organization r.0.membership r.1 v.resolved) [
      | inl kept ↦ inl kept
      | inr (stored, home) ↦ inr (v.account.id, some r.0.organization.id, stored)
    ]

pub get_auth_context-Settles :
    (db : Db) (token : Option ℕ) → Succeeds (Settles db) (get_auth_context db token)
get_auth_context-Settles db token =
    Succeeds-map (IsResolved db token) (Settles db) _ (resolved-Settles db token)
      (get_auth_context-IsResolved db token)
