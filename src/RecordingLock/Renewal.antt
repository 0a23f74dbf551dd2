-- ===== src/RecordingLock/Renewal.antt =====
-- `_renew_recording_lock_loop` of server/app/ws/live_session.py on the lock of
-- server/app/services/recording_lock.py.
use corella.Prelude.{
  ℕ, suc, ◌*◌, ◌-◌, ◌≤◌, ◌≡◌, Bool, true, false, Option, none, some, List, [], ◌∷◌, ltb, ◌==◌,
  if◌then◌else◌, refl, ap, arith, ◌∙◌, Bool-cases, inl, inr, ==_iff,
}
use corella.RecordingLock.{
  Redis, Shared, passes, lock_ttl_seconds, lock_renew_interval_seconds, acquire, renew_get,
  renew_expire, after, is_token, set_flag,
}
use corella.RecordingLock.Holder.{acquire_cases}

-- Whether a lease of three intervals lasts, with the rounds missed so far: two in a row are too many for
-- another round.
abbrev pub lasts : ℕ → List Bool → Bool
lasts missed [] = true
lasts missed (comes ∷ rounds) =
    let rest = lasts (if comes then 0 else suc missed) rounds in if missed == 2 then false else rest

flag_self : (token : ℕ) (b : Bool) (flags : ℕ → Bool) → set_flag token b flags token ≡ b
flag_self token b flags = ground arith

if_same : (b : Bool) → Path (Option ℕ) (if b then none else none) none
if_same true = refl
if_same false = refl

left_after :
    (comes : Bool) (missed t : ℕ)
    → t ≡ lock_ttl_seconds - lock_renew_interval_seconds * missed
    → (if comes then lock_ttl_seconds else t - lock_renew_interval_seconds)
      ≡ lock_ttl_seconds - lock_renew_interval_seconds * (if comes then 0 else suc missed)
left_after true missed t h = refl
left_after false missed t h = omega (arith, h)

over : (missed t : ℕ) → t ≡ 30 - 10 * missed → (missed == 2) ≡ true → ltb 10 t ≡ false
over missed t h e = ground arith

enough :
    (missed t : ℕ) → t ≡ 30 - 10 * missed → (missed == 2) ≡ false → missed ≤ 2 → ltb 10 t ≡ true
enough missed t h e k = ground arith

few_after :
    (comes : Bool) (missed : ℕ)
    → (missed == 2) ≡ false
    → missed ≤ 2
    → (if comes then 0 else suc missed) ≤ 2
few_after true missed m h = omega arith
few_after false missed m h = ground arith

module _ (redis : Redis) (key : ℕ) where
  open redis use {Store, get, ttl, elapse, expire, get-expire, ttl-expire, get-elapse, ttl-elapse}

  -- The rounds of the loop, each with whether its `renew` comes through; one that raises is logged and
  -- leaves the lock as it is. The two commands of a `renew` follow each other.
  unfoldable pub renew_loop : ℕ → List Bool → Shared Store → Shared Store
  unfolding after renew_get renew_expire
  renew_loop token [] sh = sh
  renew_loop token (comes ∷ rounds) sh =
      let slept = after redis key (passes lock_renew_interval_seconds) sh in
      let renewed = renew_expire redis key token (renew_get redis key token slept) in
      renew_loop token rounds (if comes then renewed else slept)

  -- One round of the loop.
  round : ℕ → Bool → Shared Store → Shared Store
  round token comes sh =
      let slept = after redis key (passes lock_renew_interval_seconds) sh in
      if comes then renew_expire redis key token (renew_get redis key token slept) else slept

  renewed_store :
      (token : ℕ) (sh : Shared Store)
      → (renew_expire redis key token (renew_get redis key token sh)).store ≡ (
          if is_token (get key sh.store) token
          then expire key lock_ttl_seconds sh.store
          else sh.store)
  unfolding renew_expire renew_get
  renewed_store token sh =
      ap (λ b. if b then expire key lock_ttl_seconds sh.store else sh.store)
        (flag_self token (is_token (get key sh.store) token) sh.renewing)

  round_over :
      (token : ℕ) (comes : Bool) (sh : Shared Store)
      → get key (elapse lock_renew_interval_seconds sh.store) ≡ none
      → get key (round token comes sh).store ≡ none
  unfolding round after
  round_over token false sh h = h
  round_over token true sh h =
      ap (get key)
        (renewed_store token (record sh { store = elapse lock_renew_interval_seconds sh.store }))
      ∙ rw h h

  round-none :
      (token : ℕ) (comes : Bool) (sh : Shared Store)
      → get key sh.store ≡ none
      → get key (round token comes sh).store ≡ none
  round-none token comes sh h = round_over token comes sh (rw (get-elapse, h) (if_same _))

  round-held :
      (token : ℕ) (comes : Bool) (sh : Shared Store)
      → get key sh.store ≡ some token
      → ltb lock_renew_interval_seconds (ttl key sh.store) ≡ true
      → (get key (round token comes sh).store ≡ some token)
        × (ttl key (round token comes sh).store
            ≡ (if comes then lock_ttl_seconds else ttl key sh.store - lock_renew_interval_seconds))
  unfolding round after
  round-held token false sh mine left =
      (get-elapse key lock_renew_interval_seconds sh.store ∙ rw left mine, ttl-elapse key _ _)
  round-held token true sh mine left =
      let slept = elapse lock_renew_interval_seconds sh.store in
      let here : get key slept ≡ some token =
        get-elapse key lock_renew_interval_seconds sh.store ∙ rw left mine in
      let own : is_token (get key slept) token ≡ true =
        ap (λ o. is_token o token) here ∙ (==_iff token token).1 refl in
      (
        ap (get key) (
              renewed_store token
                (record sh { store = elapse lock_renew_interval_seconds sh.store }))
            ∙ rw own (get-expire key _ slept ∙ here),
        ap (ttl key) (
              renewed_store token
                (record sh { store = elapse lock_renew_interval_seconds sh.store }))
            ∙ rw own (ttl-expire key _ token slept here),
      )

  renew_loop-none :
      (token : ℕ) (rounds : List Bool) (sh : Shared Store)
      → get key sh.store ≡ none
      → get key (renew_loop token rounds sh).store ≡ none
  unfolding renew_loop round
  renew_loop-none token [] sh h = h
  renew_loop-none token (comes ∷ rounds) sh h =
      renew_loop-none token rounds (round token comes sh) (round-none token comes sh h)

  renew_loop_from :
      (token missed : ℕ) (rounds : List Bool) (sh : Shared Store)
      → get key sh.store ≡ some token
      → ttl key sh.store ≡ lock_ttl_seconds - lock_renew_interval_seconds * missed
      → missed ≤ 2
      → get key (renew_loop token rounds sh).store
        ≡ (if lasts missed rounds then some token else none)
  unfolding renew_loop round
  renew_loop_from token missed [] sh mine lease few = mine
  renew_loop_from token missed (comes ∷ rounds) sh mine lease few =
      elim (Bool-cases (missed == 2)) [
        | inl out ↦ rw out (
            renew_loop-none token rounds (round token comes sh) (
              round_over token comes sh (
                get-elapse key lock_renew_interval_seconds sh.store
                ∙ rw (over missed (ttl key sh.store) lease out))))
        | inr more ↦
            let held =
              round-held token comes sh mine (enough missed (ttl key sh.store) lease more few) in
            rw more (
              renew_loop_from token (if comes then 0 else suc missed) rounds (round token comes sh)
                held.0 (held.1 ∙ left_after comes missed (ttl key sh.store) lease)
                (few_after comes missed more few))
      ]

  -- A session takes a free lock and then renews it in every round but those whose call fails, with no other
  -- command at the lock: after the rounds the lock is its own exactly where no two rounds in a row that failed were followed by another
  -- round, and else it is free.
  pub renew_loop-lasts :
      (token : ℕ) (rounds : List Bool) (sh : Shared Store)
      → get key sh.store ≡ none
      → get key
          (renew_loop token rounds
            (record sh { store = (acquire redis key token sh.store).1 })).store
        ≡ (if lasts 0 rounds then some token else none)
  renew_loop-lasts token rounds sh free =
      let (granted, mine, lease) = (acquire_cases redis key token sh.store).0 free in
      renew_loop_from token 0 rounds _ mine lease (omega arith)
