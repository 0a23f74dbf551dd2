-- ===== src/Organizations/Sharing.antt =====
-- Groups in common: `users_share_group` of server/app/services/organizations.py, and what
-- `remove_member` of server/app/api/organizations.py leaves of it.
use mathlib.Core.Path.{subst}
use corella.Prelude.{
  ℕ, ◌≡◌, refl, sym, ◌∙◌, ap, Bool, true, false, ◌&&◌, Option, List, [], ◌∷◌, map, ◌==◌, keep, any,
  Bool-cases, inl, inr, arith,
}
use corella.Http.{
  ok, Succeeds, Succeeds-of, Succeeds-ok, Succeeds-bind, Succeeds-raise_if, Succeeds-or_raise,
}
use corella.Organizations.Model.{GroupMembership, Db, AuthContext}
use corella.Organizations.Service.{
  in_organization, group_ids_for_user, users_share_group, get_membership, set_active,
}
use corella.Organizations.Deps.{get_auth_context, require_org_admin}
use corella.Organizations.Resolve.{Settles, get_auth_context-Settles}
use corella.Organizations.Members.{drop_membership, clear_active, remove_member}

-- Whatever test an element that was found passes, the list has such an element.
pub any-some :
    {A : Type 0} (p : A → Bool) (xs : List A)
    → any p xs ≡ true
    → (x : A) × (p x ≡ true) × ((q : A → Bool) → q x ≡ true → any q xs ≡ true)
unfolding any
any-some p [] h = absurd (ground arith)
any-some p (y ∷ ys) h = elim (Bool-cases (p y)) [
  | inl hit ↦ (y, hit, λ q k. rw k)
  | inr miss ↦
      let (x, hit, listed) = any-some p ys (ground arith) in
      (
        x,
        hit,
        λ q k. elim (Bool-cases (q y)) [ inl here ↦ rw here | inr there ↦ rw there (listed q k) ],
      )
]

pub any-map-keep :
    {A B : Type 0} (f : A → B) (p : A → Bool) (q : B → Bool) (xs : List A)
    → any q (map f (keep p xs)) ≡ any (λ x. p x && q (f x)) xs
unfolding any keep
any-map-keep f p q [] = refl
any-map-keep f p q (x ∷ xs) = elim (Bool-cases (p x)) [
  | inl hit ↦ rw (hit, any-map-keep f p q xs)
  | inr miss ↦ rw miss (any-map-keep f p q xs)
]

pub any-ext :
    {A : Type 0} (p q : A → Bool) (xs : List A) → ((x : A) → p x ≡ q x) → any p xs ≡ any q xs
unfolding any
any-ext p q [] h = refl
any-ext p q (x ∷ xs) h = rw (h x, any-ext p q xs h)

and_iff : (a b : Bool) → (a && b) ≡ true → (a ≡ true) × (b ≡ true)
and_iff a b h = ground arith

and_intro : (a b : Bool) → a ≡ true → b ≡ true → (a && b) ≡ true
and_intro a b h k = ground arith

pub true_iff : (a b : Bool) → (a ≡ true → b ≡ true) → (b ≡ true → a ≡ true) → a ≡ b
true_iff true b f g = sym (f refl)
true_iff false true f g = g refl
true_iff false false f g = refl

-- Membership rows of both users in one group of the organization.
abbrev both_in : Db → ℕ → ℕ → ℕ → Bool
both_in db a b o =
    any
      (λ r.
        r.user_id == b
        && any
            (λ s. (s.user_id == a && in_organization db o s.group_id) && s.group_id == r.group_id)
            db.group_memberships)
      db.group_memberships

share-both_in : (db : Db) (a b o : ℕ) → users_share_group db a b o ≡ both_in db a b o
unfolding users_share_group group_ids_for_user
share-both_in db a b o = any-ext _ _ db.group_memberships λ r.
    ap (λ z. r.user_id == b && z)
      (any-map-keep (λ s. s.group_id) (λ s. s.user_id == a && in_organization db o s.group_id)
        (λ g. g == r.group_id) db.group_memberships)

both_in-swap : (db : Db) (a b o : ℕ) → both_in db a b o ≡ true → both_in db b a o ≡ true
both_in-swap db a b o h =
    let (r, hr, listed_r) = any-some _ db.group_memberships h in
    let (rb, inner) = and_iff _ _ hr in
    let (s, hs, listed_s) = any-some _ db.group_memberships inner in
    let (hs', same) = and_iff _ _ hs in
    let (sa, home) = and_iff _ _ hs' in
    listed_s _ (
      and_intro _ _ sa (
        listed_r _ (
          and_intro _ _
            (and_intro _ _ rb
              (subst (λ g. in_organization db o g ≡ true) (same_group s r same) home))
            (ground (arith, same_group s r same)))))
  where
    same_group :
        (s r : GroupMembership) → (s.group_id == r.group_id) ≡ true → s.group_id ≡ r.group_id
    same_group s r e = ground arith

-- Sharing a group is mutual.
pub users_share_group_comm :
    (db : Db) (a b o : ℕ) → users_share_group db a b o ≡ users_share_group db b a o
users_share_group_comm db a b o =
    share-both_in db a b o
    ∙ true_iff _ _ (both_in-swap db a b o) (both_in-swap db b a o)
    ∙ sym (share-both_in db b a o)

-- A request that leaves the two tables of the groups as they were.
abbrev pub SameGroups : {A : Type 0} → Db → A × Db → Type 0
SameGroups db r = (r.1.groups ≡ db.groups) × (r.1.group_memberships ≡ db.group_memberships)

Settles-SameGroups : (db : Db) (r : AuthContext × Db) → Settles db r → SameGroups db r
unfolding set_active
Settles-SameGroups db r (inl kept) = (ap (λ d. d.groups) kept, ap (λ d. d.group_memberships) kept)
Settles-SameGroups db r (inr (u, active, stored)) =
    (ap (λ d. d.groups) stored, ap (λ d. d.group_memberships) stored)

pub require_org_admin-SameGroups :
    (db : Db) (token : Option ℕ) → Succeeds (SameGroups db) (require_org_admin db token)
unfolding require_org_admin
require_org_admin-SameGroups db token =
    Succeeds-bind (Settles db) (SameGroups db) (get_auth_context db token) _
      (get_auth_context-Settles db token)
      λ r s.
        Succeeds-raise_if (SameGroups db) _ 403 _ (ok r)
          λ _. Succeeds-ok (SameGroups db) r (Settles-SameGroups db r s)

remove_member-SameGroups :
    (token : Option ℕ) (org_id user_id : ℕ) (db : Db)
    → Succeeds (SameGroups db) (remove_member token org_id user_id db)
unfolding remove_member drop_membership clear_active
remove_member-SameGroups token org_id user_id db =
    Succeeds-bind (SameGroups db) (SameGroups db) (require_org_admin db token) _
      (require_org_admin-SameGroups db token)
      λ r same. Succeeds-raise_if (SameGroups db) _ 403 _ _ λ _.
        Succeeds-or_raise (SameGroups db) (get_membership r.1 user_id org_id) 404 _ _
          λ m _. Succeeds-raise_if (SameGroups db) _ 403 _ _ λ _. Succeeds-ok (SameGroups db) _ same

share-SameGroups :
    {A : Type 0} (db : Db) (r : A × Db)
    → SameGroups db r
    → (a b o : ℕ) → users_share_group r.1 a b o ≡ users_share_group db a b o
unfolding users_share_group group_ids_for_user in_organization
share-SameGroups db r (groups, rows) a b o = rw (groups, rows)

-- A member that is removed from an organization goes on sharing its groups with whom it shared them
-- before, as does everybody else.
pub removed_shares :
    (token : Option ℕ) (org_id user_id : ℕ) (db : Db) (r : Unit {0} × Db)
    → remove_member token org_id user_id db ≡ ok r
    → (a b o : ℕ) → users_share_group r.1 a b o ≡ users_share_group db a b o
removed_shares token org_id user_id db r h =
    share-SameGroups db r
      (Succeeds-of (SameGroups db) _ r h (remove_member-SameGroups token org_id user_id db))
