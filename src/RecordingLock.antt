-- ===== src/RecordingLock.antt =====
-- server/app/services/recording_lock.py: the lock that lets one connection at a time record a meeting.
-- Redis is a parameter, with the documented behaviour of the commands that the file sends to it.
pub mod Holder
pub mod Renewal
pub mod Race
pub mod Memory
mod Tests
use corella.Prelude.{
  ℕ, ◌-◌, ◌<◌, ◌≡◌, ◌≢◌, Bool, true, false, Option, none, some, List, [], ◌∷◌, ◌++◌, ltb, ◌==◌,
  if◌then◌else◌,
}

abbrev pub lock_ttl_seconds : ℕ
lock_ttl_seconds = 30

-- `_LOCK_RENEW_INTERVAL_SECONDS` of server/app/ws/live_session.py
abbrev pub lock_renew_interval_seconds : ℕ
lock_renew_interval_seconds = 10

-- Keys and tokens are numbers, since they are only compared. `ttl` is what a TTL command answers, 0
-- where there is no key, and `elapse` is the passage of time.
pub record Redis : Type 1 where
  pub Store : Type 0
  pub get : ℕ → Store → Option ℕ
  pub ttl : ℕ → Store → ℕ
  pub set_nx_ex : ℕ → ℕ → ℕ → Store → Bool × Store
  pub expire : ℕ → ℕ → Store → Store
  pub delete : ℕ → Store → Store
  pub elapse : ℕ → Store → Store
  -- SET key value NX EX seconds: only a key that is absent is set.
  pub set-present : (k v n u : ℕ) (s : Store) → get k s ≡ some u → set_nx_ex k v n s ≡ (false, s)
  pub set-absent :
      (k v n : ℕ) (s : Store)
      → get k s ≡ none
      → ((set_nx_ex k v n s).0 ≡ true)
        × (get k (set_nx_ex k v n s).1 ≡ some v)
        × (ttl k (set_nx_ex k v n s).1 ≡ n)
  -- EXPIRE restarts the clock of a key that is there.
  pub get-expire : (k n : ℕ) (s : Store) → get k (expire k n s) ≡ get k s
  pub ttl-expire : (k n u : ℕ) (s : Store) → get k s ≡ some u → ttl k (expire k n s) ≡ n
  pub get-delete : (k : ℕ) (s : Store) → get k (delete k s) ≡ none
  -- A key lives until its time to live has run out.
  pub get-elapse :
      (k n : ℕ) (s : Store) → get k (elapse n s) ≡ (if ltb n (ttl k s) then get k s else none)
  pub ttl-elapse : (k n : ℕ) (s : Store) → ttl k (elapse n s) ≡ ttl k s - n

-- `await client.get(_key(meeting_id)) == token`
abbrev pub is_token : Option ℕ → ℕ → Bool
is_token none token = false
is_token (some u) token = u == token

-- What happens to one meeting's key, in the order in which Redis sees it. A call of `renew` or of `release`
-- is two events, its GET and what it writes if the GET matched.
pub data Event : Type 0 where
  acquires renew_gets renew_expires release_gets release_deletes : ℕ → Event
  passes : ℕ → Event

abbrev pub to_list : Option ℕ → List ℕ
to_list none = []
to_list (some t) = t ∷ []

abbrev pub set_flag : ℕ → Bool → (ℕ → Bool) → ℕ → Bool
set_flag token b flags t = if token == t then b else flags t

-- The store, and the tokens whose `renew` or `release` has seen its GET match and has yet to write.
pub record Shared (Store : Type 0) : Type 0 where
  pub store : Store
  pub renewing : ℕ → Bool
  pub releasing : ℕ → Bool

module _ (redis : Redis) where
  open redis use {Store, get, set_nx_ex, expire, delete, elapse}

  -- `token` is the fresh `secrets.token_hex(16)`.
  unfoldable pub acquire : ℕ → ℕ → Store → Option ℕ × Store
  acquire key token s =
      let (acquired, s') = set_nx_ex key token lock_ttl_seconds s in
      (if acquired then some token else none, s')

  -- The two commands of `renew` and of `release`: the GET with its test, and what follows a match.
  unfoldable pub holds : ℕ → ℕ → Store → Bool
  holds key token s = is_token (get key s) token

  unfoldable pub renew_write : ℕ → Store → Store
  renew_write key s = expire key lock_ttl_seconds s

  unfoldable pub release_write : ℕ → Store → Store
  release_write key s = delete key s

  unfoldable pub renew_get : ℕ → ℕ → Shared Store → Shared Store
  unfolding holds
  renew_get key token sh = record sh {
    renewing = set_flag token (holds key token sh.store) sh.renewing;
  }

  unfoldable pub renew_expire : ℕ → ℕ → Shared Store → Shared Store
  unfolding renew_write
  renew_expire key token sh = record sh {
    store = if sh.renewing token then renew_write key sh.store else sh.store;
    renewing = set_flag token false sh.renewing;
  }

  unfoldable pub release_get : ℕ → ℕ → Shared Store → Shared Store
  unfolding holds
  release_get key token sh = record sh {
    releasing = set_flag token (holds key token sh.store) sh.releasing;
  }

  unfoldable pub release_delete : ℕ → ℕ → Shared Store → Shared Store
  unfolding release_write
  release_delete key token sh = record sh {
    store = if sh.releasing token then release_write key sh.store else sh.store;
    releasing = set_flag token false sh.releasing;
  }

  unfoldable pub after : ℕ → Event → Shared Store → Shared Store
  unfolding acquire renew_get renew_expire release_get release_delete
  after key (acquires token) sh = record sh { store = (acquire key token sh.store).1 }
  after key (renew_gets token) sh = renew_get key token sh
  after key (renew_expires token) sh = renew_expire key token sh
  after key (release_gets token) sh = release_get key token sh
  after key (release_deletes token) sh = release_delete key token sh
  after key (passes n) sh = record sh { store = elapse n sh.store }

  -- What `acquire` answers to the event, if it is one.
  unfoldable pub grant : ℕ → Event → Store → List ℕ
  unfolding acquire
  grant key (acquires token) s = to_list (acquire key token s).0
  grant key (renew_gets token) s = []
  grant key (renew_expires token) s = []
  grant key (release_gets token) s = []
  grant key (release_deletes token) s = []
  grant key (passes n) s = []

  unfoldable pub run : ℕ → List Event → Shared Store → Shared Store
  run key [] sh = sh
  run key (e ∷ es) sh = run key es (after key e sh)

  -- The tokens that were handed out, in order.
  unfoldable pub granted : ℕ → List Event → Shared Store → List ℕ
  granted key [] sh = []
  granted key (e ∷ es) sh = grant key e sh.store ++ granted key es (after key e sh)
