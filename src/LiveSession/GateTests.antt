-- ===== src/LiveSession/GateTests.antt =====
-- Two connections to one recording, through the gate of server/app/ws/live_session.py.
use corella.Prelude.{
  ℕ, ◌+◌, ◌≡◌, refl, arith, true, false, Option, none, some, List, [], ◌∷◌, find, map, codes,
  modify,
}
use corella.Organizations.Model.{User, member, Db}
use corella.RecordingLock.{
  Event, acquires, renew_gets, renew_expires, release_gets, passes, Shared, run,
}
use corella.RecordingLock.Memory.{Cell, memory}
use corella.LiveSession.Finish.{recording}
use corella.LiveSession.Connect.{
  ApiKey, LiveMeeting, First, not_an_object, credentials, admitted, raised, find_meeting, Admission,
  World, connect,
}
use corella.LiveSession.Gate.{IsEntitled, is_admitted, connect-IsEntitled, connect-held}
use corella.LiveSession.Rest.{seen, answer, get_over_rest, find_meeting-get_owned_meeting}

abbrev ann : User
ann = record {
  id = 1;
  email = codes "ann";
  full_name = codes "Ann";
  is_super_admin = false;
  active_organization_id = some 9;
}

abbrev db : Db
db = record {
  users = ann ∷ [];
  organizations = record { id = 9; name = codes "Office"; is_instance_org = false } ∷ [];
  memberships = record { user_id = 1; organization_id = 9; role = member } ∷ [];
  invites = [];
  groups = [];
  group_memberships = [];
  next_id = 10;
}

abbrev call : LiveMeeting
call = record {
  meeting = record { id = 4; owner_id = 1; organization_id = 9 };
  status = recording;
  started_at = none;
  api_key_id = none;
}

abbrev key : ApiKey
key = record {
  id = 6;
  owner_id = 1;
  organization_id = 9;
  key_hash = 71;
  max_duration_minutes = 60;
  last_used_at = none;
}

abbrev free : ℕ → Cell
free k = (none, 0)

abbrev world : World memory
world = record { db = db; keys = key ∷ []; meetings = call ∷ []; store = free }

-- A token is the number of its user; a hash is one more.
abbrev decode : ℕ → Option ℕ
decode token = some token

abbrev hash : ℕ → ℕ
hash k = k + 1

abbrev by_token : First
by_token = credentials (some 1) none

abbrev by_key : First
by_key = credentials none (some 70)

abbrev admission : Admission
admission = record {
  user = ann;
  key = none;
  meeting = call;
  lock_token = 55;
  is_admin = false;
  max_duration_ms = none;
}

abbrev meanwhile : List Event
meanwhile =
    acquires 56 ∷ renew_gets 55 ∷ release_gets 56 ∷ passes 20 ∷ renew_expires 55 ∷ passes 29 ∷ []

connect-IsEntitled_example :
    IsEntitled memory decode hash 100 4 by_key world
      (connect memory decode hash 100 55 4 by_key world)
connect-IsEntitled_example = connect-IsEntitled memory decode hash 100 55 4 by_key world

-- The key is used, its limit is the session's, and the meeting has started.
by_key_admitted :
    let (outcome, w) = connect memory decode hash 100 55 4 by_key world in
    (is_admitted outcome ≡ true)
    × (w.keys ≡ record key { last_used_at = some 100 } ∷ [])
    × (w.meetings ≡ record call { started_at = some 100; api_key_id = some 6 } ∷ [])
unfolding connect find modify
by_key_admitted = (refl, refl, refl)

by_token_admitted : (connect memory decode hash 100 55 4 by_token world).0 ≡ admitted admission
unfolding connect find
by_token_admitted = refl

abbrev taken : Shared (ℕ → Cell)
taken = record {
  store = (connect memory decode hash 100 55 4 by_token world).1.store;
  renewing = λ t. false;
  releasing = λ t. false;
}

connect-held_example :
    is_admitted
      (connect memory decode hash 150 57 4 by_key
        (record world { store = (run memory 4 meanwhile taken).store })).0
    ≡ false
connect-held_example =
    connect-held memory decode hash 100 150 55 57 4 by_token by_key world
      (record world { store = (run memory 4 meanwhile taken).store }) admission taken meanwhile
      by_token_admitted refl (λ t. refl) (omega arith) refl

find_meeting-get_owned_meeting_example :
    seen (find_meeting db ann none 4 (call ∷ []))
    ≡ answer (get_over_rest db (some 1) 4 (map (λ (r : LiveMeeting). r.meeting) (call ∷ [])))
unfolding find
find_meeting-get_owned_meeting_example = find_meeting-get_owned_meeting db ann 4 (call ∷ []) refl

-- A first frame that is JSON and no object: no close code.
not_an_object_raises : (connect memory decode hash 100 55 4 not_an_object world).0 ≡ raised
unfolding connect
not_an_object_raises = refl
