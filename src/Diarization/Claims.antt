-- ===== src/Diarization/Claims.antt =====
-- In one pass of `reconcile_diarization` of server/app/workers/tasks.py no entry of the registry is claimed
-- for two voices.
use corella.Prelude.{
  ℕ, zero, suc, ◌≤◌, ◌<◌, ◌≡◌, refl, ap, ◌∙◌, Bool, false, Option, none, some, List, [], ◌∷◌, ◌++◌,
  ◌==◌, leb, any, length, length-append, tally, tally-snoc, arith, Bool-cases, inl, inr,
}
use corella.Diarization.{
  Cluster, Voice, Pass, best_match, update_centroid, update_at, matched, register, fresh,
  speaker_at, claim, claim_for, claims,
}
use corella.Diarization.Matching.{IsFree, best_match-IsFree}

any-tally : {A : Type 0} (p : A → Bool) (xs : List A) → any p xs ≡ false → tally p xs ≡ 0
unfolding any tally
any-tally p [] h = refl
any-tally p (x ∷ xs) h = ground (arith, any-tally p xs)

-- How many voices claim an entry.
abbrev pub claimants : ℕ → List (ℕ × ℕ) → ℕ
claimants i = tally (λ r. r.1 == i)

module _ {E : Type 0} (similarity : E → E → ℕ) (blend : E → ℕ → E → E) (threshold : ℕ)
    (recognize : E → Option ℕ) where
  record IsClaimed (p : Pass E) : Type 0 where
    one : (i : ℕ) → claimants i p.label_to_idx ≤ 1
    marked : (i : ℕ) → claimants i p.label_to_idx ≡ tally (λ j. j == i) p.claimed
    below : (i : ℕ) → length p.clusters ≤ i → tally (λ j. j == i) p.claimed ≡ 0

  length-update_at :
      (i : ℕ) (e : E) (cs : List (Cluster E))
      → length (update_at similarity blend i e cs) ≡ length cs
  length-update_at i e [] = refl
  length-update_at zero e (c ∷ cs) = refl
  length-update_at (suc i) e (c ∷ cs) = ap suc (length-update_at i e cs)

  -- A claim of an entry that nobody has claimed.
  claim-IsClaimed :
      (label i : ℕ) (p q : Pass E)
      → IsClaimed p
      → tally (λ j. j == i) p.claimed ≡ 0
      → i < length q.clusters
      → length p.clusters ≤ length q.clusters
      → q.claimed ≡ p.claimed
      → q.label_to_idx ≡ p.label_to_idx
      → IsClaimed (claim similarity blend threshold recognize label i q)
  unfolding tally
  claim-IsClaimed label i p q v free low grows same same' = record {
    one = λ k.
        rw same' (
          ground
            (arith, tally-snoc (λ r. r.1 == k) p.label_to_idx (label, i), v.one k, v.marked k));
    marked = λ k.
        rw (same, same')
          (ground (arith, tally-snoc (λ r. r.1 == k) p.label_to_idx (label, i), v.marked k));
    below = λ k h. rw same (ground (arith, v.below k));
  }

  registered-IsClaimed :
      (w : Voice E) (p : Pass E)
      → IsClaimed p
      → IsClaimed (claim_for similarity blend threshold recognize w none p)
  unfolding register
  registered-IsClaimed w p v =
      claim-IsClaimed w.label (length p.clusters) p _ v (v.below (length p.clusters) (omega arith))
        (omega (arith, length-append p.clusters (_ ∷ [])))
        (omega (arith, length-append p.clusters (_ ∷ []))) refl refl

  matched-IsClaimed :
      (w : Voice E) (p : Pass E) (i : ℕ)
      → IsClaimed p
      → IsFree similarity blend w.embedding p.claimed (length p.clusters) i
      → IsClaimed (claim_for similarity blend threshold recognize w (some i) p)
  matched-IsClaimed w p i v (low, free) =
      claim-IsClaimed w.label i p _ v (any-tally (λ j. j == i) p.claimed free)
        (omega (arith, length-update_at i w.embedding p.clusters, low))
        (omega (arith, length-update_at i w.embedding p.clusters)) refl refl

  claim_for-IsClaimed :
      (w : Voice E) (p : Pass E) (m : Option (ℕ × ℕ))
      → best_match similarity blend p.clusters w.embedding p.claimed ≡ m
      → IsClaimed p
      → IsClaimed (
          claim_for similarity blend threshold recognize w
            (matched similarity blend threshold recognize m)
            p)
  claim_for-IsClaimed w p none e v = registered-IsClaimed w p v
  claim_for-IsClaimed w p (some (i, sim)) e v = elim (Bool-cases (leb threshold sim)) [
    | inl near ↦ rw near (
        matched-IsClaimed w p i v
          (best_match-IsFree similarity blend w.embedding p.claimed p.clusters i sim e))
    | inr far ↦ rw far (registered-IsClaimed w p v)
  ]

  claims-IsClaimed :
      (vs : List (Voice E)) (p : Pass E)
      → IsClaimed p
      → IsClaimed (claims similarity blend threshold recognize vs p)
  unfolding claims
  claims-IsClaimed [] p v = v
  claims-IsClaimed (w ∷ vs) p v = claims-IsClaimed vs _ (claim_for-IsClaimed w p _ refl v)

  speaker_at-update_at :
      (i j : ℕ) (e : E) (cs : List (Cluster E))
      → speaker_at i (update_at similarity blend j e cs) ≡ speaker_at i cs
  unfolding update_centroid
  speaker_at-update_at i j e [] = refl
  speaker_at-update_at zero zero e (c ∷ cs) = refl
  speaker_at-update_at (suc i) zero e (c ∷ cs) = refl
  speaker_at-update_at zero (suc j) e (c ∷ cs) = refl
  speaker_at-update_at (suc i) (suc j) e (c ∷ cs) = speaker_at-update_at i j e cs

  speaker_at-append :
      (i n : ℕ) (cs ds : List (Cluster E))
      → speaker_at i cs ≡ some n
      → speaker_at i (cs ++ ds) ≡ some n
  speaker_at-append i n [] ds h = cc
  speaker_at-append zero n (c ∷ cs) ds h = h
  speaker_at-append (suc i) n (c ∷ cs) ds h = speaker_at-append i n cs ds h

  speaker_at-claim_for :
      (w : Voice E) (p : Pass E) (m : Option ℕ) (i n : ℕ)
      → speaker_at i p.clusters ≡ some n
      → speaker_at i (claim_for similarity blend threshold recognize w m p).clusters ≡ some n
  unfolding register
  speaker_at-claim_for w p none i n h = speaker_at-append i n p.clusters _ h
  speaker_at-claim_for w p (some j) i n h = speaker_at-update_at i j w.embedding p.clusters ∙ h

  -- An entry that has a speaker keeps it.
  pub claims_keep :
      (vs : List (Voice E)) (p : Pass E) (i n : ℕ)
      → speaker_at i p.clusters ≡ some n
      → speaker_at i (claims similarity blend threshold recognize vs p).clusters ≡ some n
  unfolding claims
  claims_keep [] p i n h = h
  claims_keep (w ∷ vs) p i n h = claims_keep vs _ i n (speaker_at-claim_for w p _ i n h)

  fresh-IsClaimed :
      (clusters : List (Cluster E)) (speakers : ℕ) → IsClaimed (fresh clusters speakers)
  unfolding tally
  fresh-IsClaimed clusters speakers = record {
    one = λ i. omega arith;
    marked = λ i. refl;
    below = λ i h. refl;
  }

  -- However many voices a pass has heard, no entry of the registry is claimed for two of them.
  pub claims_once :
      (vs : List (Voice E)) (clusters : List (Cluster E)) (speakers i : ℕ)
      → claimants i
          (claims similarity blend threshold recognize vs (fresh clusters speakers)).label_to_idx
        ≤ 1
  claims_once vs clusters speakers i =
      (claims-IsClaimed vs (fresh clusters speakers) (fresh-IsClaimed clusters speakers)).one i
