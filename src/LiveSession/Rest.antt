-- ===== src/LiveSession/Rest.antt =====
-- The gate of server/app/ws/live_session.py beside `get_owned_meeting` of server/app/api/meetings.py.
use corella.Prelude.{
  ℕ, ◌==◌, ◌≡◌, refl, ap, arith, Bool, true, false, Option, none, some, List, [], ◌∷◌, find, map,
  if◌then◌else◌,
}
use corella.Http.{Result, ok, http_exception, ◌>>=◌, raise_if, or_raise}
use corella.Organizations.Model.{User, Organization, OrganizationMembership, Db, is_user}
use corella.Organizations.Service.{resolve_active_membership}
use corella.Organizations.Deps.{get_auth_context}
use corella.Meetings.{Meeting, is_meeting, get_owned_meeting}
use corella.LiveSession.Connect.{LiveMeeting, is_live, find_meeting}

-- The meeting that the gate finds, with what was written on the way.
abbrev pub seen : Option (LiveMeeting × Db) → Option (Meeting × Db)
seen none = none
seen (some (live, db)) = some (live.meeting, db)

abbrev pub answer : {A : Type 0} → Result A → Option A
answer (ok a) = some a
answer (http_exception status detail) = none

-- `get_owned_meeting` of server/app/api/meetings.py behind its dependency.
abbrev pub get_over_rest : Db → Option ℕ → ℕ → List Meeting → Result (Meeting × Db)
get_over_rest db token meeting_id meetings = do
  (ctx, db') ← get_auth_context db token
  meeting ← get_owned_meeting meeting_id ctx meetings
  ok (meeting, db')

if_same {ℓ} : {A : Type ℓ} (b : Bool) (x : A) → (if b then x else x) ≡ x
if_same true x = refl
if_same false x = refl

abbrev option_meeting : Option LiveMeeting → Option Meeting
option_meeting none = none
option_meeting (some r) = some r.meeting

find-live :
    (m : ℕ) (meetings : List LiveMeeting)
    → find (is_meeting m) (map (λ r. r.meeting) meetings)
      ≡ option_meeting (find (is_live m) meetings)
unfolding find
find-live m [] = refl
find-live m (r ∷ meetings) = headed (r.meeting.id == m) _ _ (find-live m meetings)
  where
    headed :
        (b : Bool) (x : Option Meeting) (y : Option LiveMeeting)
        → x ≡ option_meeting y
        → (if b then some r.meeting else x) ≡ option_meeting (if b then some r else y)
    headed true x y e = refl
    headed false x y e = e

-- For a caller with a token, the socket and the REST interface find the same meetings: one that the caller
-- owns in the active organization.
pub find_meeting-get_owned_meeting :
    (db : Db) (user : User) (meeting_id : ℕ) (meetings : List LiveMeeting)
    → find (is_user user.id) db.users ≡ some user
    → seen (find_meeting db user none meeting_id meetings)
      ≡ answer (
          get_over_rest db
            (some user.id)
            meeting_id
            (map (λ (r : LiveMeeting). r.meeting) meetings))
unfolding find_meeting get_auth_context get_owned_meeting raise_if or_raise ◌>>=◌
find_meeting-get_owned_meeting db user meeting_id meetings known =
    by_cases (find (is_live meeting_id) meetings) (resolve_active_membership db user) refl refl
  where
    by_cases :
        (o : Option LiveMeeting) (p : Option (Organization × OrganizationMembership × Db))
        → find (is_live meeting_id) meetings ≡ o
        → resolve_active_membership db user ≡ p
        → seen (find_meeting db user none meeting_id meetings)
          ≡ answer (
              get_over_rest db
                (some user.id)
                meeting_id
                (map (λ (r : LiveMeeting). r.meeting) meetings))
    by_cases none none e f = rw (known, find-live meeting_id meetings, e, f) refl
    by_cases none (some p) e f = rw (known, find-live meeting_id meetings, e, f) refl
    by_cases (some live) none e f =
        rw (known, find-live meeting_id meetings, e, f)
          (ap seen (if_same (live.meeting.owner_id == user.id) none))
    by_cases (some live) (some (org, membership, db')) e f =
        rw (known, find-live meeting_id meetings, e, f) (ground arith)
