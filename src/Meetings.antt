-- ===== src/Meetings.antt =====
-- Who reads and who changes a meeting: server/app/api/meetings.py, and which documents of the knowledge
-- base one sees: server/app/services/access.py and server/app/api/kb.py. Rows are in the order of
-- `created_at`. The columns that no check reads are left out, and so are the files and the search index
-- behind a row.
pub mod Access
pub mod Grouped
mod Tests
use corella.Prelude.{
  ℕ, Bool, true, false, not, ◌&&◌, ◌||◌, Option, none, some, List, [], ◌∷◌, ◌==◌, if◌then◌else◌,
  find, any, keep, modify, reject, map,
}
use mathlib.Core.List.{reverse}
use corella.Http.{Result, ok, http_exception, ◌>>=◌, ◌>>◌, raise_if, or_raise}
use corella.Organizations.Model.{
  User, Organization, OrganizationMembership, Group, GroupMembership, Db, AuthContext, is_some_id,
}
use corella.Organizations.Service.{is_org_admin, group_ids_for_user, users_share_group}

pub record Meeting : Type 0 where
  pub id : ℕ
  pub owner_id : ℕ
  pub organization_id : ℕ

-- `done` is the status that the row of server/app/models/meeting.py keeps.
pub record ActionItem : Type 0 where
  pub id : ℕ
  pub meeting_id : ℕ
  pub done : Bool

pub record KbDocument : Type 0 where
  pub id : ℕ
  pub owner_id : ℕ
  pub organization_id : ℕ
  pub group_id : Option ℕ

abbrev pub is_meeting : ℕ → Meeting → Bool
is_meeting m r = r.id == m

unfoldable pub get_owned_meeting : ℕ → AuthContext → List Meeting → Result Meeting
get_owned_meeting meeting_id ctx meetings = do
  meeting ← or_raise (find (is_meeting meeting_id) meetings) 404 "Meeting not found"
  raise_if
      (not (meeting.owner_id == ctx.user.id)
        || not (meeting.organization_id == ctx.organization.id))
      404 "Meeting not found"
  ok meeting

-- The last check of the two readers below, where `admits` is their own: an outsider to the organization
-- is told that there is no such meeting.
abbrev pub admit : AuthContext → Bool → Meeting → Result Meeting
admit ctx admits meeting =
    if ctx.user.is_super_admin
    then ok meeting
    else if not (meeting.organization_id == ctx.organization.id)
    then http_exception 404 "Meeting not found"
    else if admits
    then ok meeting
    else http_exception 404 "Meeting not found"

unfoldable pub get_group_visible_meeting : Db → ℕ → AuthContext → List Meeting → Result Meeting
unfolding is_org_admin users_share_group
get_group_visible_meeting db meeting_id ctx meetings = do
  meeting ← or_raise (find (is_meeting meeting_id) meetings) 404 "Meeting not found"
  admit ctx
      (meeting.owner_id == ctx.user.id
        || is_org_admin ctx
        || users_share_group db ctx.user.id meeting.owner_id ctx.organization.id)
      meeting

unfoldable pub get_full_readable_meeting : ℕ → AuthContext → List Meeting → Result Meeting
unfolding is_org_admin
get_full_readable_meeting meeting_id ctx meetings = do
  meeting ← or_raise (find (is_meeting meeting_id) meetings) 404 "Meeting not found"
  admit ctx (meeting.owner_id == ctx.user.id || is_org_admin ctx) meeting

unfoldable pub list_meetings : AuthContext → List Meeting → List Meeting
list_meetings ctx meetings =
    reverse
      (keep (λ m. m.owner_id == ctx.user.id && m.organization_id == ctx.organization.id) meetings)

-- The two subqueries, and the query over them.
unfoldable pub my_groups : Db → AuthContext → List ℕ
unfolding group_ids_for_user
my_groups db ctx = group_ids_for_user db ctx.user.id ctx.organization.id

unfoldable pub teammate_ids : Db → AuthContext → List ℕ
unfolding my_groups
teammate_ids db ctx =
    let groups = my_groups db ctx in
    map (λ r. r.user_id)
      (keep (λ r. any (λ g. g == r.group_id) groups && not (r.user_id == ctx.user.id))
        db.group_memberships)

unfoldable pub list_group_meetings : Db → AuthContext → List Meeting → List Meeting
unfolding teammate_ids
list_group_meetings db ctx meetings =
    let teammates = teammate_ids db ctx in
    reverse (
      keep (λ m. m.organization_id == ctx.organization.id && any (λ u. u == m.owner_id) teammates)
        meetings)

unfoldable pub delete_meeting : ℕ → AuthContext → List Meeting → Result (Unit {0} × List Meeting)
unfolding get_owned_meeting
delete_meeting meeting_id ctx meetings = do
  meeting ← get_owned_meeting meeting_id ctx meetings
  ok (tt, reject (is_meeting meeting_id) meetings)

abbrev is_item : ℕ → ActionItem → Bool
is_item i r = r.id == i

unfoldable pub update_action_item :
    ℕ
    → ℕ
    → Bool
    → AuthContext
    → List Meeting
    → List ActionItem
    → Result (Unit {0} × List ActionItem)
unfolding get_owned_meeting
update_action_item meeting_id item_id done ctx meetings items = do
  meeting ← get_owned_meeting meeting_id ctx meetings
  item ← or_raise (find (is_item item_id) items) 404 "Action item not found"
  raise_if (not (item.meeting_id == meeting_id)) 404 "Action item not found"
  ok (tt, modify (is_item item_id) (λ r. record r { done = done }) items)

-- `KBDocument.group_id.in_(group_ids)`
abbrev pub in_groups : List ℕ → Option ℕ → Bool
in_groups group_ids none = false
in_groups group_ids (some g) = any (λ x. x == g) group_ids

abbrev pub is_unassigned : Option ℕ → Bool
is_unassigned none = true
is_unassigned (some g) = false

-- The clause of a member who is no admin: with groups, and without.
abbrev pub member_clause : ℕ → List ℕ → KbDocument → Bool
member_clause user_id [] doc = is_unassigned doc.group_id && doc.owner_id == user_id
member_clause user_id (g ∷ gs) doc =
    in_groups (g ∷ gs) doc.group_id || (is_unassigned doc.group_id && doc.owner_id == user_id)

unfoldable pub kb_visible_clause : ℕ → ℕ → List ℕ → Bool → KbDocument → Bool
kb_visible_clause user_id organization_id group_ids org_admin doc =
    let in_org = doc.organization_id == organization_id in
    if org_admin then in_org else in_org && member_clause user_id group_ids doc

unfoldable pub list_kb_documents : Db → AuthContext → List KbDocument → List KbDocument
unfolding is_org_admin group_ids_for_user kb_visible_clause
list_kb_documents db ctx documents =
    let group_ids = group_ids_for_user db ctx.user.id ctx.organization.id in
    reverse (
      keep (kb_visible_clause ctx.user.id ctx.organization.id group_ids (is_org_admin ctx))
        documents)

unfoldable pub searchable_owner_ids : Db → ℕ → ℕ → List ℕ
unfolding group_ids_for_user
searchable_owner_ids db owner_id organization_id =
    let group_ids = group_ids_for_user db owner_id organization_id in
    owner_id
    ∷ map (λ r. r.user_id) (keep (λ r. any (λ g. g == r.group_id) group_ids) db.group_memberships)
