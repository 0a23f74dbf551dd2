-- ===== src/RecordingLock/Memory.antt =====
-- A Redis for server/app/services/recording_lock.py that is a function from keys to values with their times
-- to live.
use corella.Prelude.{
  ℕ, ◌-◌, ◌≡◌, Bool, true, false, Option, none, some, arith, ltb, ◌==◌, refl, if◌then◌else◌,
}
use corella.RecordingLock.{Redis}

abbrev pub Cell : Type 0
Cell = Option ℕ × ℕ

abbrev pub put : ℕ → Cell → (ℕ → Cell) → ℕ → Cell
put k c s j = if k == j then c else s j

abbrev pub set_cell : Cell → ℕ → ℕ → ℕ → (ℕ → Cell) → Bool × (ℕ → Cell)
set_cell (none, t) k v n s = (true, put k (some v, n) s)
set_cell (some u, t) k v n s = (false, s)

abbrev pub refresh : ℕ → Cell → Cell
refresh n (none, t) = (none, t)
refresh n (some u, t) = (some u, n)

abbrev pub age : ℕ → Cell → Cell
age n (v, t) = if ltb n t then (v, t - n) else (none, 0)

put_self : (k : ℕ) (c : Cell) (s : ℕ → Cell) → put k c s k ≡ c
put_self k c s = ground arith

pub set_present :
    (c : Cell) (k v n u : ℕ) (s : ℕ → Cell) → c.0 ≡ some u → set_cell c k v n s ≡ (false, s)
set_present (none, t) k v n u s h = cc
set_present (some w, t) k v n u s h = refl

pub set_absent :
    (c : Cell) (k v n : ℕ) (s : ℕ → Cell)
    → c.0 ≡ none
    → ((set_cell c k v n s).0 ≡ true)
      × (((set_cell c k v n s).1 k).0 ≡ some v)
      × (((set_cell c k v n s).1 k).1 ≡ n)
set_absent (none, t) k v n s h = rw (put_self k (some v, n) s) (refl, refl, refl)
set_absent (some w, t) k v n s h = cc

pub expire_keeps : (k n : ℕ) (s : ℕ → Cell) → (put k (refresh n (s k)) s k).0 ≡ (s k).0
expire_keeps k n s = ground arith

pub expire_restarts :
    (k n u : ℕ) (s : ℕ → Cell) → (s k).0 ≡ some u → (put k (refresh n (s k)) s k).1 ≡ n
expire_restarts k n u s h = ground arith

pub delete_removes : (k : ℕ) (s : ℕ → Cell) → (put k (none, 0) s k).0 ≡ none
delete_removes k s = ground arith

pub elapse_ends :
    (k n : ℕ) (s : ℕ → Cell) → (age n (s k)).0 ≡ (if ltb n (s k).1 then (s k).0 else none)
elapse_ends k n s = ground arith

pub elapse_counts : (k n : ℕ) (s : ℕ → Cell) → (age n (s k)).1 ≡ (s k).1 - n
elapse_counts k n s = ground arith

abbrev pub memory : Redis
memory = record {
  Store = ℕ → Cell;
  get = λ k s. (s k).0;
  ttl = λ k s. (s k).1;
  set_nx_ex = λ k v n s. set_cell (s k) k v n s;
  expire = λ k n s. put k (refresh n (s k)) s;
  delete = λ k s. put k (none, 0) s;
  elapse = λ n s k. age n (s k);
  set-present = λ k v n u s h. set_present (s k) k v n u s h;
  set-absent = λ k v n s h. set_absent (s k) k v n s h;
  get-expire = expire_keeps;
  ttl-expire = expire_restarts;
  get-delete = delete_removes;
  get-elapse = elapse_ends;
  ttl-elapse = elapse_counts;
}
