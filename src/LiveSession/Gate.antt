-- ===== src/LiveSession/Gate.antt =====
-- Who gets through the gate of server/app/ws/live_session.py.
use mathlib.Core.Path.{subst}
use corella.Prelude.{
  ℕ, ◌==◌, ◌≡◌, refl, sym, ap, ◌∙◌, Bool, true, false, not, Bool-cases, inl, inr, Option-cases,
  Option, none, some, List, find, if-elim, arith,
}
use corella.Organizations.Model.{User, Db}
use corella.RecordingLock.{Redis, Event, Shared, acquire, run, lock_ttl_seconds}
use corella.RecordingLock.Holder.{IsTimely, acquire_cases, holder_keeps}
use corella.LiveSession.Finish.{is_recording}
use corella.LiveSession.Connect.{
  ApiKey, LiveMeeting, First, Outcome, admitted, closed, raised, authenticate, acting_in, is_live,
  in_organization, if_owned, find_meeting, Admission, World, on_lock, on_found, on_auth, connect,
}

-- The caller acts in the organization of the meeting.
abbrev pub acts_in : ℕ → Option (ℕ × Db) → Bool
acts_in organization_id none = false
acts_in organization_id (some (acting, db)) = acting == organization_id

abbrev pub is_admitted : Outcome Admission → Bool
is_admitted (admitted a) = true
is_admitted (closed code) = false
is_admitted raised = false

holds_if : (b : Bool) → not b ≡ false → b ≡ true
holds_if true h = refl
holds_if false h = cc

absent_found {ℓ} : {A : Type ℓ} {a : A} → none ≡ some a → ⊥
absent_found h = cc

abbrev live_or : LiveMeeting → Option (LiveMeeting × Db) → LiveMeeting
live_or a none = a
live_or a (some (b, d)) = b

inj :
    (a b : LiveMeeting) (c d : Db)
    → ◌≡◌ {A = Option (LiveMeeting × Db)} (some (a, c)) (some (b, d))
    → a ≡ b
inj a b c d h = ap (λ o. live_or a o) h

in_organization-found :
    (live live' : LiveMeeting) (db' : Db) (acting : Option (ℕ × Db))
    → in_organization live acting ≡ some (live', db')
    → (live ≡ live') × (acts_in live.meeting.organization_id acting ≡ true)
in_organization-found live live' db' none h = cc
in_organization-found live live' db' (some (o, db)) h =
    elim (Bool-cases (o == live.meeting.organization_id)) [
      | inl same ↦ (inj live live' db db' (rw same at h), same)
      | inr other ↦ absurd (absent_found (rw other at h))
    ]

if_owned-found :
    (db db' : Db) (user : User) (key : Option ApiKey) (o : Option LiveMeeting) (live : LiveMeeting)
    → if_owned db user key o ≡ some (live, db')
    → (o ≡ some live)
      × ((live.meeting.owner_id == user.id) ≡ true)
      × (acts_in live.meeting.organization_id (acting_in db user key) ≡ true)
if_owned-found db db' user key none live h = cc
if_owned-found db db' user key (some l) live h = elim (Bool-cases (l.meeting.owner_id == user.id)) [
  | inl own ↦
      let (same, acts) = in_organization-found l live db' (acting_in db user key) (rw own at h) in
      subst
        (λ (k : LiveMeeting).
          (some l ≡ some k)
          × ((k.meeting.owner_id == user.id) ≡ true)
          × (acts_in k.meeting.organization_id (acting_in db user key) ≡ true))
        same (refl, own, acts)
  | inr foreign ↦ absurd (absent_found (rw foreign at h))
]

module _ (redis : Redis) where
  open redis use {Store, get, ttl}

  -- Who is admitted to a meeting owns it, acts in its organization, and is the caller of the first frame;
  -- the meeting is being recorded, its lock was free, and is now the session's, with its whole time.
  abbrev pub IsEntitled :
      (ℕ → Option ℕ)
      → (ℕ → ℕ)
      → ℕ
      → ℕ
      → First
      → World redis
      → Outcome Admission × World redis
      → Type 0
  IsEntitled decode hash now m first w (closed code, w') = Unit
  IsEntitled decode hash now m first w (raised, w') = Unit
  IsEntitled decode hash now m first w (admitted a, w') =
      ((authenticate decode hash w.db now first w.keys).0 ≡ admitted (a.user, a.key))
      × (find (is_live m) w.meetings ≡ some a.meeting)
      × ((a.meeting.meeting.owner_id == a.user.id) ≡ true)
      × (acts_in a.meeting.meeting.organization_id (acting_in w.db a.user a.key) ≡ true)
      × (is_recording a.meeting.status ≡ true)
      × (get m w.store ≡ none)
      × (get m w'.store ≡ some a.lock_token)
      × (ttl m w'.store ≡ lock_ttl_seconds)

  on_lock_cases :
      (now m token : ℕ) (user : User) (key : Option ApiKey) (live : LiveMeeting) (db' : Db)
      (w : World redis)
      → (P : Outcome Admission × World redis → Type 0)
      → ((get m w.store ≡ none)
          → P (
              on_lock redis now m user key live db'
                (record w { store = (acquire redis m token w.store).1 })
                (some token)))
      → ((u : ℕ) → get m w.store ≡ some u → P (closed 4409, w))
      → P (
          on_lock redis now m user key live db'
            (record w { store = (acquire redis m token w.store).1 })
            (acquire redis m token w.store).0)
  on_lock_cases now m token user key live db' w P free taken = elim (Option-cases (get m w.store)) [
    | inl absent ↦
        subst
          (λ o. P (
            on_lock redis now m user key live db'
              (record w { store = (acquire redis m token w.store).1 }) o))
          (sym ((acquire_cases redis m token w.store).0 absent).0) (free absent)
    | inr (u, present) ↦
        subst
          (λ (r : Option ℕ × Store).
            P (on_lock redis now m user key live db' (record w { store = r.1 }) r.0))
          (sym ((acquire_cases redis m token w.store).1 u present)) (taken u present)
  ]

  on_found-IsEntitled :
      (decode : ℕ → Option ℕ) (hash : ℕ → ℕ) (now m token : ℕ) (first : First) (user : User)
      (key : Option ApiKey) (keys' : List ApiKey) (w : World redis) (o : Option (LiveMeeting × Db))
      → (authenticate decode hash w.db now first w.keys).0 ≡ admitted (user, key)
      → find_meeting w.db user key m w.meetings ≡ o
      → IsEntitled decode hash now m first w
          (on_found redis now token m user key (record w { keys = keys' }) o)
  unfolding find_meeting
  on_found-IsEntitled decode hash now m token first user key keys' w none who found = tt
  on_found-IsEntitled decode hash now m token first user key keys' w (some (live, db')) who found =
      if-elim (IsEntitled decode hash now m first w) (not (is_recording live.status)) _ _ (λ e. tt)
        λ e.
          on_lock_cases now m token user key live db' (record w { keys = keys' })
            (IsEntitled decode hash now m first w)
            (λ free.
              let live_now : is_recording live.status ≡ true =
                holds_if (is_recording live.status) e in
              let (listed, own, acts) = if_owned-found w.db db' user key _ live found in
              let (got, mine, lease) = (acquire_cases redis m token w.store).0 free in
              (who, listed, own, acts, live_now, free, mine, lease))
            (λ u taken. tt)

  -- Who is admitted to a meeting, by whatever first frame: the frame is the caller's, the caller owns the
  -- meeting and acts in its organization, the meeting is being recorded, its lock was free, and the lock is
  -- now the session's, for its whole time.
  pub connect-IsEntitled :
      (decode : ℕ → Option ℕ) (hash : ℕ → ℕ) (now token m : ℕ) (first : First) (w : World redis)
      → IsEntitled decode hash now m first w (connect redis decode hash now token m first w)
  unfolding connect
  connect-IsEntitled decode hash now token m first w =
      by_caller (authenticate decode hash w.db now first w.keys).0 refl
    where
      by_caller :
          (who : Outcome (User × Option ApiKey))
          → (authenticate decode hash w.db now first w.keys).0 ≡ who
          → IsEntitled decode hash now m first w (
              on_auth redis now token m
                (record w { keys = (authenticate decode hash w.db now first w.keys).1 })
                who)
      by_caller (closed code) h = tt
      by_caller raised h = tt
      by_caller (admitted (user, key)) h =
          on_found-IsEntitled decode hash now m token first user key
            (authenticate decode hash w.db now first w.keys).1 w _ h refl

  on_auth-held :
      (now token m u : ℕ) (w : World redis) (who : Outcome (User × Option ApiKey))
      → get m w.store ≡ some u
      → is_admitted (on_auth redis now token m w who).0 ≡ false
  unfolding find_meeting
  on_auth-held now token m u w (closed code) h = refl
  on_auth-held now token m u w raised h = refl
  on_auth-held now token m u w (admitted (user, key)) h =
      found (find_meeting w.db user key m w.meetings)
    where
      found :
          (o : Option (LiveMeeting × Db))
          → is_admitted (on_found redis now token m user key w o).0 ≡ false
      found none = refl
      found (some (live, db')) =
          if-elim (λ (r : Outcome Admission × World redis). is_admitted r.0 ≡ false)
            (not (is_recording live.status)) _ _ (λ e. refl)
            λ e.
              on_lock_cases now m token user key live db' w (λ r. is_admitted r.0 ≡ false)
                (λ free. absurd (absent_found (sym free ∙ h))) (λ v taken. refl)

  token_of : ℕ → Outcome Admission → ℕ
  token_of n (admitted a) = a.lock_token
  token_of n (closed code) = n
  token_of n raised = n

  holding :
      (decode : ℕ → Option ℕ) (hash : ℕ → ℕ) (now m : ℕ) (first : First) (w : World redis)
      (outcome : Outcome Admission) (w' : World redis) (a : Admission)
      → IsEntitled decode hash now m first w (outcome, w')
      → outcome ≡ admitted a
      → (get m w'.store ≡ some a.lock_token) × (ttl m w'.store ≡ lock_ttl_seconds)
  unfolding token_of
  holding decode hash now m first w (admitted b) w' a
        (who, listed, own, acts, live, free, mine, lease) h =
      (mine ∙ ap some (ap (token_of 0) h), lease)
  holding decode hash now m first w (closed code) w' a e h = cc
  holding decode hash now m first w raised w' a e h = cc

  -- A session that was admitted while no `release` had passed its GET, and then the commands of any
  -- sessions at the lock, where its own does not begin to release and its EXPIREs come in time: no
  -- connection to the same meeting is admitted, whoever asks and whatever has become of the tables.
  pub connect-held :
      (decode : ℕ → Option ℕ) (hash : ℕ → ℕ) (now now' token token' m : ℕ) (first first' : First)
      (w w' : World redis) (a : Admission) (sh : Shared Store) (es : List Event)
      → (connect redis decode hash now token m first w).0 ≡ admitted a
      → sh.store ≡ (connect redis decode hash now token m first w).1.store
      → ((t : ℕ) → sh.releasing t ≡ false)
      → IsTimely a.lock_token (sh.renewing a.lock_token) lock_ttl_seconds es
      → w'.store ≡ (run redis m es sh).store
      → is_admitted (connect redis decode hash now' token' m first' w').0 ≡ false
  unfolding connect
  connect-held decode hash now now' token token' m first first' w w' a sh es h same idle timely
        later =
      let r : Outcome Admission × World redis = connect redis decode hash now token m first w in
      let (mine, lease) =
        holding decode hash now m first w r.0 r.1 a
          (connect-IsEntitled decode hash now token m first w) h in
      let kept =
        (holder_keeps redis m a.lock_token lock_ttl_seconds es sh (ap (get m) same ∙ mine)
          (rw (ap (ttl m) same ∙ lease) (omega arith)) (omega arith) idle timely).0 in
      on_auth-held now' token' m a.lock_token _
        (authenticate decode hash w'.db now' first' w'.keys).0 (ap (get m) later ∙ kept)
