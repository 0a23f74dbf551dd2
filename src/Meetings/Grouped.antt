-- ===== src/Meetings/Grouped.antt =====
-- The list of the group-mates' meetings in server/app/api/meetings.py.
use corella.Prelude.{
  ℕ, ◌≡◌, refl, ◌∙◌, ap, Bool, true, false, not, ◌&&◌, List, [], ◌∷◌, ◌==◌, any, keep, arith,
}
use mathlib.Core.List.{reverse}
use corella.Organizations.Model.{Db, AuthContext}
use corella.Organizations.Service.{group_ids_for_user, users_share_group}
use corella.Organizations.Sharing.{any-map-keep, any-ext}
use corella.Meetings.{Meeting, my_groups, teammate_ids, list_group_meetings}

keep-ext :
    {A : Type 0} (p q : A → Bool) (xs : List A) → ((x : A) → p x ≡ q x) → keep p xs ≡ keep q xs
unfolding keep
keep-ext p q [] h = refl
keep-ext p q (x ∷ xs) h = rw (h x, keep-ext p q xs h)

any-and :
    {A : Type 0} (c : Bool) (p : A → Bool) (xs : List A) → any (λ x. c && p x) xs ≡ (c && any p xs)
unfolding any
any-and true p xs = refl
any-and false p [] = refl
any-and false p (x ∷ xs) = any-and false p xs

-- Is this somebody else with whom the caller shares a group?
abbrev pub is_teammate : Db → AuthContext → ℕ → Bool
is_teammate db ctx u =
    not (u == ctx.user.id) && users_share_group db ctx.user.id u ctx.organization.id

teammate-same :
    (db : Db) (ctx : AuthContext) (u : ℕ)
    → any (λ v. v == u) (teammate_ids db ctx) ≡ is_teammate db ctx u
unfolding teammate_ids my_groups users_share_group
teammate-same db ctx u =
    any-map-keep (λ r. r.user_id) _ (λ v. v == u) db.group_memberships
    ∙ any-ext _
        (λ r.
          not (u == ctx.user.id)
          && (r.user_id == u
              && any (λ g. g == r.group_id)
                  (group_ids_for_user db ctx.user.id ctx.organization.id)))
        db.group_memberships
        (λ r.
          same_row r.user_id u ctx.user.id
            (any (λ g. g == r.group_id) (group_ids_for_user db ctx.user.id ctx.organization.id)))
    ∙ any-and (not (u == ctx.user.id)) _ db.group_memberships
  where
    same_row :
        (v u me : ℕ) (b : Bool)
        → ((b && not (v == me)) && v == u) ≡ (not (u == me) && (v == u && b))
    same_row v u me b = ground arith

-- The list holds the organization's meetings of those who share a group with the caller, the newest
-- first, and none of the caller's own.
pub list_group_meetings_lem :
    (db : Db) (ctx : AuthContext) (meetings : List Meeting)
    → list_group_meetings db ctx meetings
      ≡ reverse (
          keep
            (λ m. m.organization_id == ctx.organization.id && is_teammate db ctx m.owner_id)
            meetings)
unfolding list_group_meetings
list_group_meetings_lem db ctx meetings = ap reverse (
    keep-ext _ _ meetings λ m.
      ap (λ b. m.organization_id == ctx.organization.id && b) (teammate-same db ctx m.owner_id))
