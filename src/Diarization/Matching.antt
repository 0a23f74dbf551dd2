-- ===== src/Diarization/Matching.antt =====
-- `best_match` of server/app/services/diarization/cluster.py.
use mathlib.Core.Path.{subst}
use corella.Prelude.{
  ℕ, suc, ◌+◌, ◌≤◌, ◌<◌, ◌≡◌, false, Option, none, some, List, [], ◌∷◌, ◌==◌, any, length, arith,
  Bool-cases, inl, inr,
}
use corella.Diarization.{Cluster, above, best_from, best_match}

module _ {E : Type 0} (similarity : E → E → ℕ) (blend : E → ℕ → E → E) (embedding : E)
    (exclude : List ℕ) where
  -- An entry that may be taken: one of the first `n` that is not excluded.
  abbrev pub IsFree : ℕ → ℕ → Type 0
  IsFree n i = (i < n) × (any (λ j. j == i) exclude ≡ false)

  FreeBest : ℕ → Option (ℕ × ℕ) → Type 0
  FreeBest n none = Unit
  FreeBest n (some (i, sim)) = IsFree n i

  best_from-FreeBest :
      (n i : ℕ) (best : Option (ℕ × ℕ)) (cs : List (Cluster E))
      → i + length cs ≤ n
      → FreeBest n best
      → FreeBest n (best_from similarity blend embedding exclude i best cs)
  unfolding best_from
  best_from-FreeBest n i best [] fits h = h
  best_from-FreeBest n i best (c ∷ cs) fits h =
      let sim : ℕ = similarity embedding c.centroid in
      elim (Bool-cases (any (λ j. j == i) exclude)) [
        | inl claimed ↦ rw claimed (best_from-FreeBest n (suc i) best cs (omega arith) h)
        | inr free ↦ elim (Bool-cases (above similarity blend best sim)) [
          | inl higher ↦
              rw (free, higher)
                (best_from-FreeBest n (suc i) (some (i, sim)) cs (omega arith)
                  (unfold FreeBest in (omega arith, free)))
          | inr lower ↦ rw (free, lower) (best_from-FreeBest n (suc i) best cs (omega arith) h)
        ]
      ]

  -- A match is an entry of the registry that is not excluded.
  pub best_match-IsFree :
      (cs : List (Cluster E)) (i sim : ℕ)
      → best_match similarity blend cs embedding exclude ≡ some (i, sim)
      → IsFree (length cs) i
  unfolding best_match FreeBest
  best_match-IsFree cs i sim h =
      subst (FreeBest (length cs)) h (best_from-FreeBest (length cs) 0 none cs (omega arith) tt)
