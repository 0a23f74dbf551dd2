-- ===== src/RecordingLock/Holder.antt =====
-- Who holds the lock of server/app/services/recording_lock.py, whatever order the commands of several
-- sessions reach Redis in.
use mathlib.Core.Path.{subst}
use corella.Prelude.{
  Option, ◌++◌, ℕ, ◌-◌, ◌<◌, ◌≤◌, ◌≡◌, ◌≢◌, Bool, true, false, none, some, List, [], ◌∷◌, ltb, ◌==◌,
  if◌then◌else◌, refl, sym, arith, ap, ◌∙◌, if-elim, ==_iff,
}
use corella.RecordingLock.{
  Redis, Event, acquires, renew_gets, renew_expires, release_gets, release_deletes, passes, Shared,
  set_flag, is_token, to_list, lock_ttl_seconds, acquire, release_write, after, run, grant, granted,
}

-- What happens while `me` has `left` seconds of its lease, and `pending` says that the GET of a `renew` of
-- its own has matched: the others may try anything, `me` does not begin to release, and its time is renewed
-- before it is up.
abbrev pub IsTimely : ℕ → Bool → ℕ → List Event → Type 0
IsTimely me pending left [] = Unit
IsTimely me pending left (acquires token ∷ es) = IsTimely me pending left es
IsTimely me pending left (renew_gets token ∷ es) =
    IsTimely me (if me == token then true else pending) left es
IsTimely me pending left (renew_expires token ∷ es) =
    IsTimely me (if me == token then false else pending)
      (if me == token then if pending then lock_ttl_seconds else left else left) es
IsTimely me pending left (release_gets token ∷ es) = (token ≢ me) × IsTimely me pending left es
IsTimely me pending left (release_deletes token ∷ es) = IsTimely me pending left es
IsTimely me pending left (passes n ∷ es) = (n < left) × IsTimely me pending (left - n) es

other_token : (me token : ℕ) → token ≢ me → (me == token) ≡ false
other_token me token ne = ground arith

lt→ltb : (a b c : ℕ) → a < b → b ≤ c → ltb a c ≡ true
lt→ltb a b c h k = ground arith

clear_flag :
    (token : ℕ) (b : Bool) (flags : ℕ → Bool)
    → b ≡ false
    → ((t : ℕ) → flags t ≡ false)
    → (t : ℕ) → set_flag token b flags t ≡ false
clear_flag token b flags h idle t = if-elim (λ r. r ≡ false) (token == t) _ _ (λ e. h) (λ e. idle t)

set_flag_own :
    (me token : ℕ) (b : Bool) (flags : ℕ → Bool)
    → set_flag token b flags me ≡ (if me == token then b else flags me)
set_flag_own me token b flags = ground arith

flag_got :
    (me token : ℕ) (flags : ℕ → Bool)
    → set_flag token (me == token) flags me ≡ (if me == token then true else flags me)
flag_got me token flags = ground arith

left_full :
    (me token left : ℕ) (pending : Bool)
    → left ≤ lock_ttl_seconds
    → (if me == token then if pending then lock_ttl_seconds else left else left) ≤ lock_ttl_seconds
left_full me token left pending h =
    if-elim (λ n. n ≤ lock_ttl_seconds) (me == token) _ _
      (λ e. if-elim (λ n. n ≤ lock_ttl_seconds) pending _ _ (λ p. omega arith) (λ p. h)) (λ e. h)

left_renewed :
    (me token left : ℕ) (flags : ℕ → Bool)
    → left ≤ lock_ttl_seconds
    → (if me == token then if flags me then lock_ttl_seconds else left else left)
      ≤ (if flags token then lock_ttl_seconds else left)
left_renewed me token left flags h =
    if-elim (λ n. n ≤ (if flags token then lock_ttl_seconds else left)) (me == token) _ _
      (λ e. rw (ap flags ((==_iff me token).0 e)) (omega arith))
      (λ e. if-elim (λ n. left ≤ n) (flags token) _ _ (λ p. h) (λ p. omega arith))

module _ (redis : Redis) (key : ℕ) where
  open redis use {
    Store, get, ttl, elapse, set-present, set-absent, get-expire, ttl-expire, get-elapse,
    ttl-elapse, expire,
  }

  -- A key that is free goes to the caller, with the whole time to live; a key that is held is refused,
  -- and nothing changes.
  pub acquire_cases :
      (token : ℕ) (s : Store)
      → ((get key s ≡ none)
          → ((acquire redis key token s).0 ≡ some token)
            × (get key (acquire redis key token s).1 ≡ some token)
            × (ttl key (acquire redis key token s).1 ≡ lock_ttl_seconds))
        × ((u : ℕ) → get key s ≡ some u → acquire redis key token s ≡ (none, s))
  unfolding acquire
  acquire_cases token s = (
    λ free. ground (arith, set-absent key token lock_ttl_seconds s free),
    λ u taken. rw (set-present key token lock_ttl_seconds u s taken),
  )

  -- The store after an EXPIRE that may or may not be sent.
  expire_if :
      (b : Bool) (me left : ℕ) (s : Store)
      → get key s ≡ some me
      → left ≤ ttl key s
      → (get key (if b then expire key lock_ttl_seconds s else s) ≡ some me)
        × ((if b then lock_ttl_seconds else left)
            ≤ ttl key (if b then expire key lock_ttl_seconds s else s))
  expire_if true me left s mine lease = (
    get-expire key lock_ttl_seconds s ∙ mine,
    rw (ttl-expire key lock_ttl_seconds me s mine) (omega arith),
  )
  expire_if false me left s mine lease = (mine, lease)

  -- The commands of several sessions in any order, each `renew` and each `release` with its GET and its
  -- write apart: where `me` holds the lock, no `release` has passed its GET, and from there on `me` does
  -- not begin to release and its EXPIREs come before its time is up, the lock stays with `me`, whatever
  -- the others send and in between whatever commands, and no token is handed out.
  pub holder_keeps :
      (me left : ℕ) (es : List Event) (sh : Shared Store)
      → get key sh.store ≡ some me
      → left ≤ ttl key sh.store
      → left ≤ lock_ttl_seconds
      → ((t : ℕ) → sh.releasing t ≡ false)
      → IsTimely me (sh.renewing me) left es
      → (get key (run redis key es sh).store ≡ some me) × (granted redis key es sh ≡ [])
  unfolding run granted after grant
  holder_keeps me left [] sh mine lease full idle timely = (mine, refl)
  holder_keeps me left (acquires token ∷ es) sh mine lease full idle timely =
      subst
        (λ (r : Option ℕ × Store).
          (get key (run redis key es (record sh { store = r.1 })).store ≡ some me)
          × (to_list r.0 ++ granted redis key es (record sh { store = r.1 }) ≡ []))
        (sym ((acquire_cases token sh.store).1 me mine))
        (holder_keeps me left es sh mine lease full idle timely)
  holder_keeps me left (renew_gets token ∷ es) sh mine lease full idle timely =
      holder_keeps me left es
        (record sh { renewing = set_flag token (is_token (get key sh.store) token) sh.renewing })
        mine lease full idle
        (subst (λ b. IsTimely me b left es)
          (sym (
            ap (λ o. set_flag token (is_token o token) sh.renewing me) mine
            ∙ flag_got me token sh.renewing))
          timely)
  holder_keeps me left (renew_expires token ∷ es) sh mine lease full idle timely =
      let kept = expire_if (sh.renewing token) me left sh.store mine lease in
      holder_keeps me
        (if me == token then if sh.renewing me then lock_ttl_seconds else left else left) es
        (record sh {
          store = if sh.renewing token then expire key lock_ttl_seconds sh.store else sh.store;
          renewing = set_flag token false sh.renewing;
        })
        kept.0 (omega (arith, kept.1, left_renewed me token left sh.renewing full))
        (left_full me token left (sh.renewing me) full) idle
        (subst
          (λ b.
            IsTimely me b
              (if me == token then if sh.renewing me then lock_ttl_seconds else left else left) es)
          (sym (set_flag_own me token false sh.renewing)) timely)
  holder_keeps me left (release_gets token ∷ es) sh mine lease full idle timely =
      holder_keeps me left es _ mine lease full
        (clear_flag token _ sh.releasing (rw (mine, other_token me token timely.0)) idle) timely.1
  holder_keeps me left (release_deletes token ∷ es) sh mine lease full idle timely =
      subst
        (λ b.
          let sh' : Shared Store = record sh {
            store = if b then release_write redis key sh.store else sh.store;
            releasing = set_flag token false sh.releasing;
          } in
          (get key (run redis key es sh').store ≡ some me) × (granted redis key es sh' ≡ []))
        (sym (idle token))
        (holder_keeps me left es (record sh { releasing = set_flag token false sh.releasing }) mine
          lease full (clear_flag token false sh.releasing refl idle) timely)
  holder_keeps me left (passes n ∷ es) sh mine lease full idle timely =
      holder_keeps me (left - n) es (record sh { store = elapse n sh.store })
        (get-elapse key n sh.store ∙ rw (lt→ltb n left (ttl key sh.store) timely.0 lease) mine)
        (rw ttl-elapse (omega arith)) (omega arith) idle timely.1
