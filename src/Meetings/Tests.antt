-- ===== src/Meetings/Tests.antt =====
-- Examples for the access to meetings: two people who share a group, one of them an admin.
use corella.Prelude.{
  ℕ, ◌≡◌, refl, inl, true, false, ◌&&◌, some, [], ◌∷◌, ◌==◌, find, any, keep, codes,
}
use mathlib.Core.List.{reverse}
use corella.Http.{ok, ◌>>=◌, or_raise, raise_if}
use corella.Organizations.Model.{OrgRole, member, User, Db, AuthContext}
use corella.Meetings.{
  Meeting, KbDocument, get_owned_meeting, get_full_readable_meeting, get_group_visible_meeting,
  list_group_meetings,
}
use corella.Meetings.Access.{access_grows}
use corella.Meetings.Grouped.{is_teammate, list_group_meetings_lem}

abbrev person : ℕ → User
person n = record {
  id = n;
  email = codes "p";
  full_name = codes "P";
  is_super_admin = false;
  active_organization_id = some 9;
}

abbrev asks : ℕ → OrgRole → AuthContext
asks n role = record {
  user = person n;
  organization = record { id = 9; name = codes "Org"; is_instance_org = true };
  membership = record { user_id = n; organization_id = 9; role = role };
}

abbrev db : Db
db = record {
  users = person 1 ∷ person 2 ∷ [];
  organizations = [];
  memberships = [];
  invites = [];
  groups = record { id = 5; organization_id = 9; name = codes "Team" } ∷ [];
  group_memberships =
      record { user_id = 1; group_id = 5 } ∷ record { user_id = 2; group_id = 5 } ∷ [];
  next_id = 10;
}

abbrev call : Meeting
call = record { id = 7; owner_id = 1; organization_id = 9 }

owner_reads : get_owned_meeting 7 (asks 1 member) (call ∷ []) ≡ ok call
unfolding get_owned_meeting ◌>>=◌ or_raise raise_if find
owner_reads = refl

access_grows_example :
    (get_full_readable_meeting 7 (asks 1 member) (call ∷ []) ≡ ok call)
    × (get_group_visible_meeting db 7 (asks 1 member) (call ∷ []) ≡ ok call)
access_grows_example = access_grows db 7 (asks 1 member) (call ∷ []) call (inl owner_reads)

-- Group-mates see the report.
mate_sees : get_group_visible_meeting db 7 (asks 2 member) (call ∷ []) ≡ ok call
unfolding get_group_visible_meeting ◌>>=◌ or_raise find any keep
mate_sees = refl

list_group_meetings_example :
    list_group_meetings db (asks 2 member) (call ∷ [])
    ≡ reverse (
        keep (λ m. m.organization_id == 9 && is_teammate db (asks 2 member) m.owner_id) (call ∷ []))
list_group_meetings_example = list_group_meetings_lem db (asks 2 member) (call ∷ [])

abbrev handbook : KbDocument
handbook = record { id = 3; owner_id = 1; organization_id = 9; group_id = some 5 }
