-- ===== src/Organizations/GroupMembers.antt =====
-- What `set_group_members` of server/app/api/organizations.py makes of the groups.
use mathlib.Core.Path.{ap}
use corella.Prelude.{
  ℕ, ◌≡◌, refl, sym, ◌∙◌, Bool, true, false, Option, List, [], ◌∷◌, ◌++◌, append-nil, append_assoc,
  ◌==◌, if◌then◌else◌, reject, arith, Bool-cases, inl, inr,
}
use corella.Http.{
  ok, Succeeds, Succeeds-of, Succeeds-ok, Succeeds-bind, Succeeds-then, Succeeds-map,
  Succeeds-raise_if, Succeeds-or_raise,
}
use corella.Organizations.Model.{GroupMembership, Db}
use corella.Organizations.Service.{get_membership}
use corella.Organizations.Deps.{require_org_admin}
use corella.Organizations.Groups.{get_group, drop_members, add_members, set_group_members}
use corella.Organizations.Sharing.{SameGroups, require_org_admin-SameGroups}

-- The users of a group, in the order of its rows.
abbrev listed : ℕ → List GroupMembership → List ℕ
listed g [] = []
listed g (r ∷ rs) = let rest = listed g rs in if r.group_id == g then r.user_id ∷ rest else rest

abbrev pub users_of : ℕ → Db → List ℕ
users_of g db = listed g db.group_memberships

listed-snoc :
    (h u g : ℕ) (rs : List GroupMembership)
    → listed h (rs ++ record { user_id = u; group_id = g } ∷ [])
      ≡ listed h rs ++ (if g == h then u ∷ [] else [])
listed-snoc h u g [] = elim (Bool-cases (g == h)) [
  | inl same ↦ rw same refl
  | inr other ↦ rw other refl
]
listed-snoc h u g (r ∷ rs) = elim (Bool-cases (r.group_id == h)) [
  | inl hit ↦ rw (hit, listed-snoc h u g rs)
  | inr miss ↦ rw (miss, listed-snoc h u g rs)
]

listed-reject :
    (h g : ℕ) (rs : List GroupMembership)
    → listed h (reject (λ r. r.group_id == g) rs) ≡ (if g == h then [] else listed h rs)
unfolding reject
listed-reject h g [] = ground arith
listed-reject h g (r ∷ rs) = ground (arith, listed-reject h g rs)

append-if :
    (b : Bool) (xs us : List ℕ) (u : ℕ)
    → (xs ++ (if b then u ∷ [] else [])) ++ (if b then us else [])
      ≡ xs ++ (if b then u ∷ us else [])
append-if true xs us u = rw append_assoc refl
append-if false xs us u = append-nil (xs ++ [])

nothing-if : (b : Bool) (xs : List ℕ) → xs ≡ xs ++ (if b then [] else [])
nothing-if true xs = sym (append-nil xs)
nothing-if false xs = sym (append-nil xs)

Added : ℕ → List ℕ → Db → Db → Type 0
Added g us db db' = (h : ℕ) → users_of h db' ≡ users_of h db ++ (if g == h then us else [])

add_members-Added :
    (org_id g : ℕ) (us : List ℕ) (db : Db) → Succeeds (Added g us db) (add_members org_id g us db)
unfolding add_members Added
add_members-Added org_id g [] db =
    Succeeds-ok (Added g [] db) db λ h. nothing-if (g == h) (users_of h db)
add_members-Added org_id g (u ∷ us) db =
    Succeeds-or_raise (Added g (u ∷ us) db) (get_membership db u org_id) 422 _ _ λ m _.
      Succeeds-raise_if (Added g (u ∷ us) db) _ 500 _ _ λ _.
        let db' : Db = record db {
          group_memberships = db.group_memberships ++ record { user_id = u; group_id = g } ∷ [];
        } in
        Succeeds-map (Added g us db') (Added g (u ∷ us) db) _
          (λ d a h.
            a h
            ∙ ap (λ l. l ++ (if g == h then us else [])) (listed-snoc h u g db.group_memberships)
            ∙ append-if (g == h) (users_of h db) us u)
          (add_members-Added org_id g us db')

-- The members of one group given, those of the others kept.
abbrev IsReplaced : {A : Type 0} → ℕ → List ℕ → Db → A × Db → Type 0
IsReplaced g us db r = (h : ℕ) → users_of h r.1 ≡ (if g == h then us else users_of h db)

replaced :
    (b : Bool) (xs us : List ℕ)
    → (if b then [] else xs) ++ (if b then us else []) ≡ (if b then us else xs)
replaced true xs us = refl
replaced false xs us = append-nil xs

set_group_members-IsReplaced :
    (token : Option ℕ) (org_id g : ℕ) (us : List ℕ) (db : Db)
    → Succeeds (IsReplaced g us db) (set_group_members token org_id g us db)
unfolding set_group_members drop_members Added
set_group_members-IsReplaced token org_id g us db =
    Succeeds-bind (SameGroups db) (IsReplaced g us db) (require_org_admin db token) _
      (require_org_admin-SameGroups db token)
      λ r same. Succeeds-raise_if (IsReplaced g us db) _ 403 _ _ λ _.
        Succeeds-then (IsReplaced g us db) (get_group r.1 org_id g) _ λ group.
          Succeeds-bind (Added g us (drop_members g r.1)) (IsReplaced g us db)
            (add_members org_id g us (drop_members g r.1)) _
            (add_members-Added org_id g us (drop_members g r.1))
            λ db' added. Succeeds-ok (IsReplaced g us db) _ λ h.
              added h
              ∙ ap (λ l. l ++ (if g == h then us else [])) (listed-reject h g r.1.group_memberships)
              ∙ replaced (g == h) (users_of h r.1) us
              ∙ ap (λ ms. if g == h then us else listed h ms) same.1

-- After the members of a group were set, they are the given users in the given order, and the other
-- groups have the members they had.
pub set_members :
    (token : Option ℕ) (org_id g : ℕ) (us : List ℕ) (db : Db) (r : Unit {0} × Db)
    → set_group_members token org_id g us db ≡ ok r
    → (h : ℕ) → users_of h r.1 ≡ (if g == h then us else users_of h db)
set_members token org_id g us db r e h =
    Succeeds-of (IsReplaced g us db) _ r e (set_group_members-IsReplaced token org_id g us db) h
