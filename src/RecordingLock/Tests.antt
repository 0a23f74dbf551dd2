-- ===== src/RecordingLock/Tests.antt =====
-- The lock of server/app/services/recording_lock.py over the Redis of Memory.
use corella.Prelude.{ℕ, ◌≡◌, refl, Bool, true, false, none, some, List, [], ◌∷◌, arith, ◌==◌}
use corella.RecordingLock.{
  Event, acquires, renew_gets, renew_expires, release_gets, release_deletes, passes, Shared,
  acquire, holds, release_write, after, grant, run, granted,
}
use corella.RecordingLock.Memory.{Cell, memory}
use corella.RecordingLock.Holder.{holder_keeps}
use corella.RecordingLock.Renewal.{renew_loop, renew_loop-lasts}
use corella.RecordingLock.Race.{release_race}

abbrev held : ℕ → Cell
held k = (some 7, 30)

-- A `renew` of 9 has passed its GET, from a time when 9 had the lock.
abbrev shared : Shared (ℕ → Cell)
shared = record { store = held; renewing = λ t. t == 9; releasing = λ t. false }

-- Two others try to take, to renew and to release the lock while 7 renews it.
abbrev attempts : List Event
attempts =
    acquires 8
    ∷ passes 20
    ∷ release_gets 9
    ∷ renew_gets 7
    ∷ release_deletes 9
    ∷ passes 5
    ∷ renew_expires 9
    ∷ renew_expires 7
    ∷ passes 29
    ∷ acquires 9
    ∷ []

run-attempts : granted memory 1 attempts shared ≡ []
unfolding granted grant after
run-attempts = refl

holder_keeps_example :
    (((run memory 1 attempts shared).store 1).0 ≡ some 7) × (granted memory 1 attempts shared ≡ [])
holder_keeps_example =
    holder_keeps memory 1 7 30 attempts shared refl (omega arith) (omega arith) (λ t. refl)
      (omega arith)

-- Two missed rounds are survived, and so are two that one that comes through keeps apart; after two in a
-- row the lock is gone when the third is due.
abbrev free : Shared (ℕ → Cell)
free = record { store = λ k. (none, 0); renewing = λ t. false; releasing = λ t. false }

abbrev rounds : List Bool
rounds = true ∷ false ∷ true ∷ false ∷ false ∷ true ∷ []

renew_loop-lasts_example :
    ((renew_loop memory 1 7 rounds
        (record free { store = (acquire memory 1 7 free.store).1 })).store
      1).0
    ≡ none
renew_loop-lasts_example = renew_loop-lasts memory 1 7 rounds free refl

two_missed :
    ((renew_loop memory 1 7
        (false ∷ false ∷ [])
        (record free { store = (acquire memory 1 7 free.store).1 })).store
      1).0
    ≡ some 7
two_missed = renew_loop-lasts memory 1 7 (false ∷ false ∷ []) free refl

held-holds : holds memory 1 7 held ≡ true
unfolding holds
held-holds = refl

release_race_example :
    let (to_b, s_b) = acquire memory 1 8 (memory.elapse 40 held) in
    let s_a = release_write memory 1 s_b in
    (to_b ≡ some 8)
    × (holds memory 1 8 s_b ≡ true)
    × (holds memory 1 8 s_a ≡ false)
    × ((acquire memory 1 9 s_a).0 ≡ some 9)
release_race_example = release_race memory 1 7 8 9 40 held held-holds (omega arith)
