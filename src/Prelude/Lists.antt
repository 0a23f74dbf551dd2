-- ===== src/Prelude/Lists.antt =====
-- Lists measured and cut by native numbers, under the library's names.
use Prim.Native.Nat.{ℕ, zero, suc, ◌+◌, ◌-◌, ◌≤◌, min}
use mathlib.Core.Path.{◌≡◌, refl, ap}
use mathlib.Core.Bool.{Bool, true, false, not, ◌&&◌}
use mathlib.Core.Logic.{inl, inr}
use mathlib.Core.Option.{Option, none, some}
use mathlib.Core.List.{List, [], ◌∷◌, ◌++◌, append_assoc}
use native.Mathlib.Omega.{arith}
use corella.Prelude.Tests.{if◌then◌else◌, Bool-cases}

module _ {ℓ} {A : Type ℓ} where
  abbrev pub length : List A → ℕ
  length [] = 0
  length (x ∷ xs) = suc (length xs)

  unfoldable pub take : ℕ → List A → List A
  take zero xs = []
  take (suc n) [] = []
  take (suc n) (x ∷ xs) = x ∷ take n xs

  unfoldable pub drop : ℕ → List A → List A
  drop zero xs = xs
  drop (suc n) [] = []
  drop (suc n) (x ∷ xs) = drop n xs

  pub length-append : (xs ys : List A) → length (xs ++ ys) ≡ length xs + length ys
  length-append [] ys = omega arith
  length-append (x ∷ xs) ys = omega (arith, length-append xs ys)

  pub take-append-drop : (n : ℕ) (xs : List A) → take n xs ++ drop n xs ≡ xs
  unfolding take drop
  take-append-drop zero xs = refl
  take-append-drop (suc n) [] = refl
  take-append-drop (suc n) (x ∷ xs) = rw (take-append-drop n xs)

  pub length-take : (n : ℕ) (xs : List A) → length (take n xs) ≡ min n (length xs)
  unfolding take
  length-take zero xs = omega arith
  length-take (suc n) [] = omega arith
  length-take (suc n) (x ∷ xs) = omega (arith, length-take n xs)

  pub length-drop : (n : ℕ) (xs : List A) → length (drop n xs) ≡ length xs - n
  unfolding drop
  length-drop zero xs = omega arith
  length-drop (suc n) [] = omega arith
  length-drop (suc n) (x ∷ xs) = omega (arith, length-drop n xs)

  pub take-append : (n : ℕ) (xs ys : List A) → n ≤ length xs → take n (xs ++ ys) ≡ take n xs
  unfolding take
  take-append zero xs ys h = refl
  take-append (suc n) [] ys h = absurd (omega arith)
  take-append (suc n) (x ∷ xs) ys h = ap (◌∷◌ x) (take-append n xs ys (omega arith))

  pub drop-append : (n : ℕ) (xs ys : List A) → n ≤ length xs → drop n (xs ++ ys) ≡ drop n xs ++ ys
  unfolding drop
  drop-append zero xs ys h = refl
  drop-append (suc n) [] ys h = absurd (omega arith)
  drop-append (suc n) (x ∷ xs) ys h = drop-append n xs ys (omega arith)

  -- Keeps the elements that pass a Boolean test.
  unfoldable pub keep : (A → Bool) → List A → List A
  keep p [] = []
  keep p (x ∷ xs) = let rest = keep p xs in if p x then x ∷ rest else rest

  unfoldable pub any : (A → Bool) → List A → Bool
  any p [] = false
  any p (x ∷ xs) = let rest = any p xs in if p x then true else rest

  unfoldable pub all : (A → Bool) → List A → Bool
  all p [] = true
  all p (x ∷ xs) = let rest = all p xs in if p x then rest else false

  -- Every element has the property.
  abbrev pub All {κ} : (A → Type κ) → List A → Type κ
  All P [] = Unit
  All P (x ∷ xs) = P x × All P xs

  pub All-append {κ} : (P : A → Type κ) (xs ys : List A) → All P xs → All P ys → All P (xs ++ ys)
  All-append P [] ys h k = k
  All-append P (x ∷ xs) ys h k = (h.0, All-append P xs ys h.1 k)

module _ {ℓ} {A : Type ℓ} where
  abbrev pub concat : List (List A) → List A
  concat [] = []
  concat (xs ∷ xss) = xs ++ concat xss

  pub concat-append : (xss yss : List (List A)) → concat (xss ++ yss) ≡ concat xss ++ concat yss
  concat-append [] yss = refl
  concat-append (xs ∷ xss) yss = rw (concat-append xss yss, append_assoc)

  unfoldable pub replicate : ℕ → A → List A
  replicate zero a = []
  replicate (suc n) a = a ∷ replicate n a

-- Tables: the first row that passes a test, changed rows, dropped rows, and the number of rows.
module _ {ℓ} {A : Type ℓ} where
  unfoldable pub find : (A → Bool) → List A → Option A
  find p [] = none
  find p (x ∷ xs) = let rest = find p xs in if p x then some x else rest

  unfoldable pub modify : (A → Bool) → (A → A) → List A → List A
  modify p f [] = []
  modify p f (x ∷ xs) = (if p x then f x else x) ∷ modify p f xs

  unfoldable pub reject : (A → Bool) → List A → List A
  reject p [] = []
  reject p (x ∷ xs) = let rest = reject p xs in if p x then rest else x ∷ rest

  unfoldable pub tally : (A → Bool) → List A → ℕ
  tally p [] = 0
  tally p (x ∷ xs) = let rest = tally p xs in if p x then suc rest else rest

  pub tally-append : (p : A → Bool) (xs ys : List A) → tally p (xs ++ ys) ≡ tally p xs + tally p ys
  unfolding tally
  tally-append p [] ys = omega arith
  tally-append p (x ∷ xs) ys = ground (arith, tally-append p xs ys)

  pub find-none : (p : A → Bool) (xs : List A) → find p xs ≡ none → tally p xs ≡ 0
  unfolding find tally
  find-none p [] h = refl
  find-none p (x ∷ xs) h = ground (arith, find-none p xs)

  pub find-some :
      (p : A → Bool) (xs : List A) (x : A) → find p xs ≡ some x → (p x ≡ true) × (1 ≤ tally p xs)
  unfolding find tally
  find-some p [] x h = cc
  find-some p (y ∷ ys) x h = elim (Bool-cases (p y)) [
    | inl hit ↦ ground arith
    | inr miss ↦ ground (arith, find-some p ys x)
  ]

  -- A test that only some rows of another pass counts no more of them.
  pub tally-le :
      (p q : A → Bool) (xs : List A) → ((x : A) → p x ≡ true → q x ≡ true) → tally p xs ≤ tally q xs
  unfolding tally
  tally-le p q [] h = omega arith
  tally-le p q (x ∷ xs) h = elim (Bool-cases (p x)) [
    | inl hit ↦ rw (hit, h x hit) (omega (arith, tally-le p q xs h))
    | inr miss ↦ ground (arith, tally-le p q xs h)
  ]

  pub tally-zero : (p : A → Bool) (xs : List A) → ((x : A) → p x ≡ false) → tally p xs ≡ 0
  unfolding tally
  tally-zero p [] h = refl
  tally-zero p (x ∷ xs) h = rw (h x) (tally-zero p xs h)

  pub tally-reject :
      (p q : A → Bool) (xs : List A)
      → tally q (reject p xs) + tally (λ x. p x && q x) xs ≡ tally q xs
  unfolding tally reject
  tally-reject p q [] = omega arith
  tally-reject p q (x ∷ xs) = ground (arith, tally-reject p q xs)

  -- Where a change does not touch what a test reads, the count stays.
  pub tally-modify_keep :
      (p q : A → Bool) (f : A → A) (xs : List A)
      → ((x : A) → q (f x) ≡ q x)
      → tally q (modify p f xs) ≡ tally q xs
  unfolding tally modify
  tally-modify_keep p q f [] h = refl
  tally-modify_keep p q f (x ∷ xs) h = ground (arith, h x, tally-modify_keep p q f xs h)

  -- The row that a search found is in the table: whatever test it passes counts it.
  pub find-listed :
      (p q : A → Bool) (xs : List A) (x : A) → find p xs ≡ some x → q x ≡ true → 1 ≤ tally q xs
  unfolding find tally
  find-listed p q [] x h k = cc
  find-listed p q (y ∷ ys) x h k = elim (Bool-cases (p y)) [
    | inl hit ↦ ground arith
    | inr miss ↦ ground (arith, find-listed p q ys x)
  ]

  pub tally-split :
      (p q : A → Bool) (xs : List A)
      → tally p xs ≡ tally (λ x. p x && q x) xs + tally (λ x. p x && not (q x)) xs
  unfolding tally
  tally-split p q [] = omega arith
  tally-split p q (x ∷ xs) = ground (arith, tally-split p q xs)

  pub tally-snoc :
      (p : A → Bool) (xs : List A) (x : A)
      → tally p (xs ++ x ∷ []) ≡ tally p xs + (if p x then 1 else 0)
  unfolding tally
  tally-snoc p [] x = ground arith
  tally-snoc p (y ∷ ys) x = ground (arith, tally-snoc p ys x)

  pub tally-reject-le : (p q : A → Bool) (xs : List A) → tally q (reject p xs) ≤ tally q xs
  tally-reject-le p q xs = omega (arith, tally-reject p q xs)

  -- A change that no row needs in order to fail a test adds nothing to its count.
  pub tally-modify-le :
      (p q : A → Bool) (f : A → A) (xs : List A)
      → ((x : A) → q (f x) ≡ true → q x ≡ true)
      → tally q (modify p f xs) ≤ tally q xs
  unfolding tally modify
  tally-modify-le p q f [] h = omega arith
  tally-modify-le p q f (x ∷ xs) h = ground (arith, h x, tally-modify-le p q f xs h)

  -- A search that reads nothing of what a change touches finds the same row, changed if it was to be.
  pub find-modify :
      (p q : A → Bool) (f : A → A) (xs : List A)
      → ((x : A) → q (f x) ≡ q x)
      → (x : A) → find q xs ≡ some x
      → p x ≡ true
      → find q (modify p f xs) ≡ some (f x)
  unfolding find modify
  find-modify p q f [] same x h k = cc
  find-modify p q f (y ∷ ys) same x h k = ground (arith, same y, find-modify p q f ys same x)
