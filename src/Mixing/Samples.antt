-- ===== src/Mixing/Samples.antt =====
-- The machine integers and the lists of samples of server/app/services/audio/mixing.py.
use mathlib.Core.Path.{subst}
use corella.Prelude.{
  ℕ, zero, suc, ◌+◌, ◌-◌, ◌*◌, ◌/◌, ◌%◌, ◌^◌, ◌≤◌, ◌<◌, ◌≡◌, refl, sym, ap, ◌∙◌, arith, Option,
  none, some, List, [], ◌∷◌, map, ltb, if◌then◌else◌, length, take, replicate, All, ℤ, pos, ◌+ℤ◌,
  pos_part, neg_part, +ℤ-zero,
}
use corella.Vad.{Bytes}
use corella.Mixing.{then_do, signed16, word16, add32, frombuffer, tobytes, clip, add_from, place}

-- At most `k` times the size of the largest sample.
abbrev pub IsWithin : ℕ → ℤ → Type 0
IsWithin k x = (pos_part x ≤ k * 32768) × (neg_part x ≤ k * 32768)

pub IsWithin-sum : (j k : ℕ) (a b : ℤ) → IsWithin j a → IsWithin k b → IsWithin (j + k) (a +ℤ b)
unfolding ◌+ℤ◌
IsWithin-sum j k a b p q = ground arith

-- Within 65535 samples the sum in 32 bits is the sum.
pub add32-within : (a b : ℤ) → IsWithin 65535 (a +ℤ b) → add32 a b ≡ a +ℤ b
unfolding add32 ◌+ℤ◌
add32-within a b p = ground arith

pub clip-IsInt16 :
    (x : ℤ) → signed16 ((word16 (clip x) % 256 + word16 (clip x) / 256 * 256) % 2 ^ 16) ≡ clip x
unfolding clip
clip-IsInt16 x = ground arith

pub frombuffer-tobytes : (xs : List ℤ) → frombuffer (tobytes (map clip xs)) ≡ some (map clip xs)
unfolding frombuffer tobytes
frombuffer-tobytes [] = refl
frombuffer-tobytes (x ∷ xs) = rw (frombuffer-tobytes xs, clip-IsInt16 x) refl

abbrev pub get_elem? {ℓ} : {A : Type ℓ} → List A → ℕ → Option A
get_elem? [] i = none
get_elem? (x ∷ xs) zero = some x
get_elem? (x ∷ xs) (suc i) = get_elem? xs i

-- What samples that start somewhere have at a position: 0 before the first and after the last.
abbrev pub sample : ℕ → ℕ → List ℤ → ℤ
sample i start [] = pos 0
sample (suc i) (suc start) (x ∷ xs) = sample i start (x ∷ xs)
sample zero (suc start) (x ∷ xs) = pos 0
sample zero zero (x ∷ xs) = x
sample (suc i) zero (x ∷ xs) = sample i zero xs

-- Do they reach over the position?
abbrev pub covers : ℕ → ℕ → List ℤ → ℕ
covers i start xs = if ltb i start then 0 else if ltb i (start + length xs) then 1 else 0

pub length-add_from : (start : ℕ) (xs m : List ℤ) → length (add_from start xs m) ≡ length m
unfolding add_from
length-add_from start xs [] = refl
length-add_from (suc start) xs (x ∷ m) = ap suc (length-add_from start xs m)
length-add_from zero [] (x ∷ m) = refl
length-add_from zero (y ∷ xs) (x ∷ m) = ap suc (length-add_from zero xs m)

pub get_elem-map {ℓ κ} :
    {A : Type ℓ} {B : Type κ} (f : A → B) (xs : List A) (i : ℕ) (a : A)
    → get_elem? xs i ≡ some a
    → get_elem? (map f xs) i ≡ some (f a)
get_elem-map f [] i a h = cc
get_elem-map f (x ∷ xs) zero a h = ground arith
get_elem-map f (x ∷ xs) (suc i) a h = get_elem-map f xs i a h

pub get_elem-replicate {ℓ} :
    {A : Type ℓ} (n i : ℕ) (a : A) → i < n → get_elem? (replicate n a) i ≡ some a
unfolding replicate
get_elem-replicate zero i a h = absurd (omega arith)
get_elem-replicate (suc n) zero a h = refl
get_elem-replicate (suc n) (suc i) a h = get_elem-replicate n i a (omega arith)

pub length-replicate {ℓ} : {A : Type ℓ} (n : ℕ) (a : A) → length (replicate n a) ≡ n
unfolding replicate
length-replicate zero a = refl
length-replicate (suc n) a = ap suc (length-replicate n a)

-- The sum at a position, where it fits.
pub add_from-elem :
    (start : ℕ) (xs m : List ℤ) (i : ℕ) (a : ℤ)
    → get_elem? m i ≡ some a
    → IsWithin 65535 (a +ℤ sample i start xs)
    → get_elem? (add_from start xs m) i ≡ some (a +ℤ sample i start xs)
unfolding add_from ◌+ℤ◌
add_from-elem start xs [] i a h q = cc
add_from-elem (suc start) [] (x ∷ m) zero a h q = ground arith
add_from-elem (suc start) (y ∷ xs) (x ∷ m) zero a h q = ground arith
add_from-elem (suc start) [] (x ∷ m) (suc i) a h q = add_from-elem start [] m i a h q
add_from-elem (suc start) (y ∷ xs) (x ∷ m) (suc i) a h q = add_from-elem start (y ∷ xs) m i a h q
add_from-elem zero [] (x ∷ m) i a h q = h ∙ ap some (sym (+ℤ-zero a))
add_from-elem zero (y ∷ xs) (x ∷ m) zero a h q =
    let same : x ≡ a = ground arith in
    subst (λ (b : ℤ). some (add32 x y) ≡ some (b +ℤ y)) same
      (ap some (add32-within x y (subst (λ (b : ℤ). IsWithin 65535 (b +ℤ y)) (sym same) q)))
add_from-elem zero (y ∷ xs) (x ∷ m) (suc i) a h q = add_from-elem zero xs m i a h q

-- What is cut off behind the end is not added.
add_from-take :
    (start : ℕ) (xs m : List ℤ)
    → add_from start (take (length m - start) xs) m ≡ add_from start xs m
unfolding add_from take
add_from-take start xs [] = refl
add_from-take (suc start) xs (x ∷ m) =
    let both : length m - start ≡ suc (length m) - suc start = omega arith in
    subst (λ n. x ∷ add_from start (take n xs) m ≡ x ∷ add_from start xs m) both
      (ap (◌∷◌ x) (add_from-take start xs m))
add_from-take zero [] (x ∷ m) = ground arith
add_from-take zero (y ∷ xs) (x ∷ m) = ground (arith, add_from-take zero xs m)

-- Samples that start within the track are added, the ones behind its end left out.
pub place-within :
    (start : ℕ) (xs m : List ℤ) → start ≤ length m → place start xs m ≡ some (add_from start xs m)
unfolding place
place-within start xs m h = ground (arith, add_from-take start xs m)

pub frombuffer-IsWithin :
    (chunk : Bytes) (xs : List ℤ) → frombuffer chunk ≡ some xs → All (IsWithin 1) xs
unfolding frombuffer
frombuffer-IsWithin [] [] h = tt
frombuffer-IsWithin [] (x ∷ xs) h = cc
frombuffer-IsWithin (b ∷ []) xs h = cc
frombuffer-IsWithin (lo ∷ hi ∷ rest) xs h = parts (frombuffer rest) (frombuffer-IsWithin rest) h
  where
    word : (w : ℕ) → IsWithin 1 (signed16 (w % 2 ^ 16))
    word w = ground arith

    parts :
        (o : Option (List ℤ))
        → ((ys : List ℤ) → o ≡ some ys → All (IsWithin 1) ys)
        → then_do o (λ ys. some (signed16 ((lo + hi * 256) % 2 ^ 16) ∷ ys)) ≡ some xs
        → All (IsWithin 1) xs
    parts none within g = cc
    parts (some ys) within g =
        let same : signed16 ((lo + hi * 256) % 2 ^ 16) ∷ ys ≡ xs = ground arith in
        subst (λ zs. All (IsWithin 1) zs) same (word (lo + hi * 256), within ys refl)

pub sample-IsWithin :
    (i start : ℕ) (xs : List ℤ)
    → All (IsWithin 1) xs
    → IsWithin (covers i start xs) (sample i start xs)
sample-IsWithin i start [] h = ground arith
sample-IsWithin (suc i) (suc start) (x ∷ xs) h =
    subst (λ k. IsWithin k (sample i start (x ∷ xs))) (ground arith)
      (sample-IsWithin i start (x ∷ xs) h)
sample-IsWithin zero (suc start) (x ∷ xs) h = ground arith
sample-IsWithin zero zero (x ∷ xs) h = ground arith
sample-IsWithin (suc i) zero (x ∷ xs) h =
    subst (λ k. IsWithin k (sample i zero xs)) (ground arith) (sample-IsWithin i zero xs h.1)
