-- ===== src/LiveSession/Connect.antt =====
-- How a connection of server/app/ws/live_session.py becomes a session: `_authenticate`, and `live_session_ws`
-- up to the recording lock. Tokens, keys and hashes are numbers; `decode_access_token` and `hash_api_key`
-- are library calls, and so parameters. A refusal is the code with which the socket is closed.
use corella.Prelude.{
  ℕ, ◌*◌, ◌==◌, Bool, false, not, ◌||◌, Option, none, some, List, find, modify, if◌then◌else◌,
}
use corella.Organizations.Model.{User, Organization, OrganizationMembership, Db, is_user, is_admin}
use corella.Organizations.Service.{get_membership, resolve_active_membership}
use corella.Meetings.{Meeting}
use corella.RecordingLock.{Redis, acquire}
use corella.LiveSession.Finish.{Status, is_recording}

pub record ApiKey : Type 0 where
  pub id : ℕ
  pub owner_id : ℕ
  pub organization_id : ℕ
  pub key_hash : ℕ
  pub max_duration_minutes : ℕ
  pub last_used_at : Option ℕ

-- A meeting with the columns that only a recording has.
pub record LiveMeeting : Type 0 where
  pub meeting : Meeting
  pub status : Status
  pub started_at : Option ℕ
  pub api_key_id : Option ℕ

-- The first frame: none in time, no JSON, JSON that is no object, or an object with a token and an API key,
-- where they are there and not empty.
pub data First : Type 0 where
  late unreadable not_an_object : First
  credentials : Option ℕ → Option ℕ → First

-- `raised` is an exception, which leaves the handler.
pub data Outcome {ℓ} (A : Type ℓ) : Type ℓ where
  admitted : A → Outcome A
  closed : ℕ → Outcome A
  raised : Outcome A

-- `await db.get(User, user_id)`, and its test.
abbrev pub as_user : Db → Option ApiKey → Option ℕ → Outcome (User × Option ApiKey)
as_user db key none = closed 4401
as_user db key (some user_id) = elim (find (is_user user_id) db.users) [
  | none ↦ closed 4401
  | some user ↦ admitted (user, key)
]

abbrev pub owner_of : Option ApiKey → Option ℕ
owner_of none = none
owner_of (some key) = some key.owner_id

abbrev pub is_keyed : ℕ → ApiKey → Bool
is_keyed hash r = r.key_hash == hash

abbrev pub touch : ℕ → ApiKey → ApiKey
touch now r = record r { last_used_at = some now }

-- `api_key_row.last_used_at = ...`, committed where the key is good.
abbrev pub used : ℕ → Option ApiKey → Outcome (User × Option ApiKey) → List ApiKey → List ApiKey
used now (some key) (admitted who) keys = modify (λ r. r.id == key.id) (touch now) keys
used now key outcome keys = keys

unfoldable pub authenticate :
    (ℕ → Option ℕ)
    → (ℕ → ℕ)
    → Db
    → ℕ
    → First
    → List ApiKey
    → Outcome (User × Option ApiKey) × List ApiKey
authenticate decode_access_token hash_api_key db now late keys = (closed 4401, keys)
authenticate decode_access_token hash_api_key db now unreadable keys = (closed 4401, keys)
authenticate decode_access_token hash_api_key db now not_an_object keys = (raised, keys)
authenticate decode_access_token hash_api_key db now (credentials none none) keys =
    (closed 4401, keys)
authenticate decode_access_token hash_api_key db now (credentials token (some api_key)) keys =
    let key = find (is_keyed (hash_api_key api_key)) keys in
    let outcome = as_user db key (owner_of key) in (outcome, used now key outcome keys)
authenticate decode_access_token hash_api_key db now (credentials (some token) none) keys =
    (as_user db none (decode_access_token token), keys)

-- The organization in which the caller acts: the key's, or the active one, with what picking one writes.
abbrev pub active_id : Option (Organization × OrganizationMembership × Db) → Option (ℕ × Db)
active_id none = none
active_id (some (organization, membership, db')) = some (organization.id, db')

abbrev pub acting_in : Db → User → Option ApiKey → Option (ℕ × Db)
acting_in db user (some key) = some (key.organization_id, db)
acting_in db user none = active_id (resolve_active_membership db user)

abbrev pub is_live : ℕ → LiveMeeting → Bool
is_live m r = r.meeting.id == m

abbrev pub in_organization : LiveMeeting → Option (ℕ × Db) → Option (LiveMeeting × Db)
in_organization live none = none
in_organization live (some (organization_id, db')) =
    if organization_id == live.meeting.organization_id then some (live, db') else none

abbrev pub if_owned : Db → User → Option ApiKey → Option LiveMeeting → Option (LiveMeeting × Db)
if_owned db user key none = none
if_owned db user key (some live) =
    if live.meeting.owner_id == user.id then in_organization live (acting_in db user key) else none

-- The meeting, if it is the caller's.
unfoldable pub find_meeting :
    Db → User → Option ApiKey → ℕ → List LiveMeeting → Option (LiveMeeting × Db)
unfolding resolve_active_membership
find_meeting db user key meeting_id meetings =
    if_owned db user key (find (is_live meeting_id) meetings)

abbrev pub is_org_admin : Option OrganizationMembership → Bool
is_org_admin none = false
is_org_admin (some membership) = is_admin membership.role

abbrev pub limit_ms : Option ApiKey → Option ℕ
limit_ms none = none
limit_ms (some key) = some (key.max_duration_minutes * 60 * 1000)

abbrev pub with_key : Option ApiKey → Option ℕ → Option ℕ
with_key none before = before
with_key (some key) before = some key.id

-- What the session is given.
pub record Admission : Type 0 where
  pub user : User
  pub key : Option ApiKey
  pub meeting : LiveMeeting
  pub lock_token : ℕ
  pub is_admin : Bool
  pub max_duration_ms : Option ℕ

module _ (redis : Redis) where
  open redis use {Store}

  pub record World : Type 0 where
    pub db : Db
    pub keys : List ApiKey
    pub meetings : List LiveMeeting
    pub store : Store

  -- With the lock, or without, where another connection has it.
  abbrev pub on_lock :
      ℕ → ℕ → User → Option ApiKey → LiveMeeting → Db → World → Option ℕ → Outcome Admission × World
  on_lock now meeting_id user key live db' w none = (closed 4409, w)
  on_lock now meeting_id user key live db' w (some lock_token) = (
    admitted (record {
      user = user;
      key = key;
      meeting = live;
      lock_token = lock_token;
      is_admin =
          user.is_super_admin
          || is_org_admin (get_membership db' user.id live.meeting.organization_id);
      max_duration_ms = limit_ms key;
    }),
    record w {
      db = db';
      meetings =
          modify (is_live meeting_id)
            (λ r. record r { started_at = some now; api_key_id = with_key key r.api_key_id })
            w.meetings;
    },
  )

  abbrev pub on_found :
      ℕ
      → ℕ
      → ℕ
      → User
      → Option ApiKey
      → World
      → Option (LiveMeeting × Db)
      → Outcome Admission × World
  on_found now token meeting_id user key w none = (closed 4404, w)
  on_found now token meeting_id user key w (some (live, db')) =
      if not (is_recording live.status)
      then (closed 4409, w)
      else let (lock, store') = acquire redis meeting_id token w.store in
        on_lock now meeting_id user key live db' (record w { store = store' }) lock

  abbrev pub on_auth :
      ℕ → ℕ → ℕ → World → Outcome (User × Option ApiKey) → Outcome Admission × World
  on_auth now token meeting_id w (closed code) = (closed code, w)
  on_auth now token meeting_id w raised = (raised, w)
  on_auth now token meeting_id w (admitted (user, key)) =
      on_found now token meeting_id user key w (find_meeting w.db user key meeting_id w.meetings)

  -- `token` is the fresh `secrets.token_hex(16)` of the lock.
  unfoldable pub connect :
      (ℕ → Option ℕ) → (ℕ → ℕ) → ℕ → ℕ → ℕ → First → World → Outcome Admission × World
  unfolding authenticate find_meeting acquire get_membership
  connect decode_access_token hash_api_key now token meeting_id first w =
      let (who, keys') = authenticate decode_access_token hash_api_key w.db now first w.keys in
      on_auth now token meeting_id (record w { keys = keys' }) who
