-- ===== src/Meetings/Access.antt =====
-- The three levels of access to a meeting in server/app/api/meetings.py.
use corella.Prelude.{
  ℕ, ◌≡◌, ◌⊎◌, Bool, ◌&&◌, ◌||◌, List, [], ◌∷◌, ◌==◌, find, any, arith, Option-cases, inl, inr,
}
use corella.Http.{ok, ◌>>=◌, raise_if, or_raise}
use corella.Organizations.Model.{Db, AuthContext}
use corella.Meetings.{
  Meeting, KbDocument, is_meeting, get_owned_meeting, get_full_readable_meeting,
  get_group_visible_meeting, kb_visible_clause, in_groups, is_unassigned,
}

-- Who owns a meeting reads all of it, and who reads all of it sees its report.
pub access_grows :
    (db : Db) (meeting_id : ℕ) (ctx : AuthContext) (meetings : List Meeting) (m : Meeting)
    → ((get_owned_meeting meeting_id ctx meetings ≡ ok m)
        ⊎ (get_full_readable_meeting meeting_id ctx meetings ≡ ok m))
    → (get_full_readable_meeting meeting_id ctx meetings ≡ ok m)
      × (get_group_visible_meeting db meeting_id ctx meetings ≡ ok m)
unfolding get_owned_meeting get_full_readable_meeting get_group_visible_meeting ◌>>=◌ or_raise
    raise_if
access_grows db meeting_id ctx meetings m h =
    elim (Option-cases (find (is_meeting meeting_id) meetings)) [
      | inl absent ↦ absurd (ground arith)
      | inr (x, found) ↦ ground arith
    ]

-- A document is seen in its organization, by the admins, by the groups it is assigned to, and, if it is
-- assigned to none, by who uploaded it.
pub kb_visible_as :
    (user_id organization_id : ℕ) (group_ids : List ℕ) (org_admin : Bool) (doc : KbDocument)
    → kb_visible_clause user_id organization_id group_ids org_admin doc ≡ (
        doc.organization_id == organization_id
        && (org_admin
            || (in_groups group_ids doc.group_id
                || (is_unassigned doc.group_id && doc.owner_id == user_id))))
unfolding kb_visible_clause any
kb_visible_as user_id organization_id [] org_admin doc = elim (Option-cases doc.group_id) [
  | inl absent ↦ ground arith
  | inr (g, assigned) ↦ ground arith
]
kb_visible_as user_id organization_id (g ∷ gs) org_admin doc = ground arith
