-- ===== src/Organizations/Counts.antt =====
-- How many rows of each kind the tables of server/app/models/organization.py hold, and what the
-- writes of the handlers do to those numbers.
use corella.Prelude.{
  ℕ, ◌+◌, ◌≤◌, ◌≡◌, refl, Bool, ◌&&◌, List, [], ◌∷◌, ◌++◌, ◌==◌, if◌then◌else◌, arith, modify,
  reject, tally,
}
use corella.Organizations.Model.{
  OrgRole, is_owner, Organization, OrganizationMembership, is_organization, is_membership,
  is_ownership,
}

-- Owners of an organization, rows of a user in it, and those of them that own it.
abbrev pub owners : ℕ → List OrganizationMembership → ℕ
owners o = tally (is_ownership o)

abbrev pub members : ℕ → ℕ → List OrganizationMembership → ℕ
members u o = tally (is_membership u o)

abbrev pub owned : ℕ → ℕ → List OrganizationMembership → ℕ
owned u o = tally (λ r. is_membership u o r && is_owner r.role)

abbrev pub orgs : ℕ → List Organization → ℕ
orgs o = tally (is_organization o)

abbrev with_role : OrgRole → OrganizationMembership → OrganizationMembership
with_role role r = record r { role = role }

pub owners-modify :
    (u o p : ℕ) (role : OrgRole) (ms : List OrganizationMembership)
    → owners p (modify (is_membership u o) (λ r. record r { role = role }) ms)
        + (if o == p then owned u o ms else 0)
      ≡ owners p ms + (if (o == p) && is_owner role then members u o ms else 0)
unfolding tally modify
owners-modify u o p role [] = ground arith
owners-modify u o p role (r ∷ ms) = ground (arith, owners-modify u o p role ms)

pub members-modify :
    (u o v p : ℕ) (role : OrgRole) (ms : List OrganizationMembership)
    → members v p (modify (is_membership u o) (λ r. record r { role = role }) ms) ≡ members v p ms
unfolding tally modify
members-modify u o v p role [] = refl
members-modify u o v p role (r ∷ ms) = ground (arith, members-modify u o v p role ms)

pub owned-le-owners : (u o : ℕ) (ms : List OrganizationMembership) → owned u o ms ≤ owners o ms
unfolding tally
owned-le-owners u o [] = omega arith
owned-le-owners u o (r ∷ ms) = ground (arith, owned-le-owners u o ms)

pub owners-reject :
    (u o p : ℕ) (ms : List OrganizationMembership)
    → owners p (reject (is_membership u o) ms) + (if o == p then owned u o ms else 0) ≡ owners p ms
unfolding tally reject
owners-reject u o p [] = ground arith
owners-reject u o p (r ∷ ms) = ground (arith, owners-reject u o p ms)

pub members-reject-le :
    (f : OrganizationMembership → Bool) (v p : ℕ) (ms : List OrganizationMembership)
    → members v p (reject f ms) ≤ members v p ms
unfolding tally reject
members-reject-le f v p [] = omega arith
members-reject-le f v p (r ∷ ms) = ground (arith, members-reject-le f v p ms)

-- A deleted organization has no owner and no member left, and no other loses one.
pub owners-reject_org :
    (o p : ℕ) (ms : List OrganizationMembership)
    → owners p (reject (λ r. r.organization_id == o) ms) ≡ (if o == p then 0 else owners p ms)
unfolding tally reject
owners-reject_org o p [] = ground arith
owners-reject_org o p (r ∷ ms) = ground (arith, owners-reject_org o p ms)

pub members-reject_org :
    (o v p : ℕ) (ms : List OrganizationMembership)
    → members v p (reject (λ r. r.organization_id == o) ms) ≡ (if o == p then 0 else members v p ms)
unfolding tally reject
members-reject_org o v p [] = ground arith
members-reject_org o v p (r ∷ ms) = ground (arith, members-reject_org o v p ms)

pub orgs-reject :
    (o p : ℕ) (xs : List Organization)
    → orgs p (reject (is_organization o) xs) ≡ (if o == p then 0 else orgs p xs)
unfolding tally reject
orgs-reject o p [] = ground arith
orgs-reject o p (r ∷ xs) = ground (arith, orgs-reject o p xs)

-- One more row.
pub owners-append :
    (p u o : ℕ) (role : OrgRole) (ms : List OrganizationMembership)
    → owners p (ms ++ record { user_id = u; organization_id = o; role = role } ∷ [])
      ≡ owners p ms + (if (o == p) && is_owner role then 1 else 0)
unfolding tally
owners-append p u o role [] = ground arith
owners-append p u o role (r ∷ ms) = ground (arith, owners-append p u o role ms)

pub members-append :
    (v p u o : ℕ) (role : OrgRole) (ms : List OrganizationMembership)
    → members v p (ms ++ record { user_id = u; organization_id = o; role = role } ∷ [])
      ≡ members v p ms + (if (u == v) && (o == p) then 1 else 0)
unfolding tally
members-append v p u o role [] = ground arith
members-append v p u o role (r ∷ ms) = ground (arith, members-append v p u o role ms)

pub orgs-append :
    (p : ℕ) (org : Organization) (xs : List Organization)
    → orgs p (xs ++ org ∷ []) ≡ orgs p xs + (if org.id == p then 1 else 0)
unfolding tally
orgs-append p org [] = ground arith
orgs-append p org (r ∷ xs) = ground (arith, orgs-append p org xs)
