-- ===== src/RecordingLock/Race.antt =====
-- `release` of server/app/services/recording_lock.py is two commands. What can come between them.
use corella.Prelude.{ℕ, ◌≤◌, ◌≡◌, true, false, none, some, arith, ltb, ==_iff, refl, ◌∙◌}
use corella.RecordingLock.{Redis, acquire, holds, release_write}
use corella.RecordingLock.Holder.{acquire_cases}

module _ (redis : Redis) (key : ℕ) where
  open redis use {Store, get, ttl, elapse, get-delete, get-elapse}

  expired : (n : ℕ) (s : Store) → ttl key s ≤ n → get key (elapse n s) ≡ none
  expired n s h = get-elapse key n s ∙ rw (not_lt n (ttl key s) h)
    where
      not_lt : (a b : ℕ) → b ≤ a → ltb a b ≡ false
      not_lt a b p = ground arith

  -- The test of a `release` by `a` succeeds; then the rest of its lease runs out, and `b` is given the
  -- lock; then the DELETE of `a` removes the lock of `b`, so that it is given to `c` while `b` still
  -- has it.
  pub release_race :
      (a b c n : ℕ) (s : Store)
      → holds redis key a s ≡ true
      → ttl key s ≤ n
      → let (to_b, s_b) = acquire redis key b (elapse n s) in
        let s_a = release_write redis key s_b in
        (to_b ≡ some b)
        × (holds redis key b s_b ≡ true)
        × (holds redis key b s_a ≡ false)
        × ((acquire redis key c s_a).0 ≡ some c)
  unfolding holds release_write
  release_race a b c n s matched late =
      let s_b = (acquire redis key b (elapse n s)).1 in
      let (granted, mine, lease) = (acquire_cases redis key b (elapse n s)).0 (expired n s late) in
      (
        granted,
        rw mine ((==_iff b b).1 refl),
        rw get-delete,
        ((acquire_cases redis key c (release_write redis key s_b)).0 (get-delete key s_b)).0,
      )
