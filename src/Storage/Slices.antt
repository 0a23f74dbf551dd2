-- ===== src/Storage/Slices.antt =====
-- What the loop that reads a file yields.
use corella.Prelude.{
  ℕ, zero, suc, ◌+◌, ◌-◌, ◌≤◌, ◌<◌, min, ◌≡◌, refl, sym, ap, ◌∙◌, List, [], ◌∷◌, ◌++◌, ◌==◌, ltb,
  length, take, drop, concat, arith, Bool-cases, inl, inr, pos_part, sub_ℕ, pos,
}
use corella.Storage.{iter_from, iter_file, chunk_size, last_byte}

take-nil : (m : ℕ) → ◌≡◌ {A = List ℕ} (take m []) []
unfolding take
take-nil zero = refl
take-nil (suc m) = refl

take-zero : (n : ℕ) (f : List ℕ) → n ≡ 0 → [] ≡ take n f
unfolding take
take-zero n f e = rw e refl

-- A read that gives less than it was asked for has reached the end.
read-take :
    (k n : ℕ) (f : List ℕ) → k ≤ n → take k f ++ take (n - length (take k f)) (drop k f) ≡ take n f
unfolding take drop
read-take zero n f h = ap (λ m. take m f) (omega arith)
read-take (suc k) zero f h = absurd (omega arith)
read-take (suc k) (suc n) [] h = take-nil (suc n - 0)
read-take (suc k) (suc n) (x ∷ f) h =
    ap (◌∷◌ x)
      (ap (λ m. take k f ++ take m (drop k f)) (omega arith) ∙ read-take k n f (omega arith))

take-none : (k n : ℕ) (f : List ℕ) → 0 < k → length (take k f) ≡ 0 → take n f ≡ []
unfolding take
take-none zero n f p h = absurd (omega arith)
take-none (suc k) zero f p h = refl
take-none (suc k) (suc n) [] p h = refl
take-none (suc k) (suc n) (x ∷ f) p h = absurd (omega arith)

iter_from-take :
    (fuel remaining : ℕ) (f : List ℕ)
    → remaining ≤ fuel
    → concat (iter_from fuel remaining f) ≡ take remaining f
unfolding iter_from
iter_from-take zero remaining f h = take-zero remaining f (omega arith)
iter_from-take (suc fuel) remaining f h = elim (Bool-cases (ltb 0 remaining)) [
  | inr done ↦ rw done (take-zero remaining f (ground arith))
  | inl more ↦ elim (Bool-cases (length (take (min chunk_size remaining) f) == 0)) [
    | inl empty ↦
        rw (more, empty)
          (sym (take-none (min chunk_size remaining) remaining f (ground arith) (ground arith)))
    | inr some_bytes ↦
        rw (more, some_bytes)
          (ap (λ rest. take (min chunk_size remaining) f ++ rest)
              (iter_from-take fuel (remaining - length (take (min chunk_size remaining) f))
                (drop (min chunk_size remaining) f) (ground arith))
            ∙ read-take (min chunk_size remaining) remaining f (omega arith))
  ]
]

-- The loop of `_iter_file` yields the bytes from `start` to `end`, both included, that the file has.
pub iter_file-take :
    (file : List ℕ) (start end : ℕ)
    → concat (iter_file file start (pos end)) ≡ take (end + 1 - start) (drop start file)
unfolding iter_file
iter_file-take file start end =
    iter_from-take (pos_part (sub_ℕ (end + 1) (start + 0))) (pos_part (sub_ℕ (end + 1) (start + 0)))
      (drop start file) (omega arith)
    ∙ ap (λ n. take n (drop start file)) (ground arith)

take-length : (f : List ℕ) → take (length f) f ≡ f
unfolding take
take-length [] = refl
take-length (x ∷ f) = ap (◌∷◌ x) (take-length f)

last_byte-suc : (n : ℕ) → last_byte (suc n) ≡ pos n
last_byte-suc n = ground arith

-- From the first byte to the last.
pub iter_file-whole : (file : List ℕ) → concat (iter_file file 0 (last_byte (length file))) ≡ file
unfolding iter_file drop
iter_file-whole [] = refl
iter_file-whole (x ∷ file) =
    ap (λ end. concat (iter_file (x ∷ file) 0 end)) (last_byte-suc (length file))
    ∙ iter_file-take (x ∷ file) 0 (length file)
    ∙ ap (λ n. take n (x ∷ file)) (omega arith)
    ∙ take-length (x ∷ file)
