-- ===== src/Diarization.antt =====
-- The registry of a channel's voices in server/app/services/diarization/cluster.py, and how a pass of
-- `reconcile_diarization` in server/app/workers/tasks.py claims its entries for the voices that it
-- heard. `E` is what the embedding model gives for a voice, `similarity` the cosine of two, counted
-- from -1 in some unit, `blend` the running average, and `recognize` the search of known identities.
pub mod Matching
pub mod Claims
pub mod Assign
pub mod Overlap
pub mod Promote
mod Tests
use corella.Prelude.{
  ℕ, zero, suc, ◌+◌, ◌*◌, Bool, true, false, not, ◌&&◌, ◌||◌, Option, none, some, List, [], ◌∷◌,
  ◌++◌, ◌==◌, ltb, leb, if◌then◌else◌, any, is_some, length,
}

-- `speaker_id` is the speaker's number on the channel; a provisional voice has none.
pub record Cluster (E : Type 0) : Type 0 where
  pub centroid : E
  pub count : ℕ
  pub weight_ms : ℕ
  pub speaker_id : Option ℕ

-- The share is a fraction.
pub record Settings : Type 0 where
  pub diarization_guest_min_ms : ℕ
  pub guest_min_share_of : ℕ
  pub guest_min_share_in : ℕ

unfoldable pub meets_guest_floor : {E : Type 0} → Cluster E → ℕ → Settings → Bool
meets_guest_floor cluster total settings =
    ltb 0 total
    && leb settings.diarization_guest_min_ms cluster.weight_ms
    && leb (settings.guest_min_share_of * total) (cluster.weight_ms * settings.guest_min_share_in)

-- A local voice of the window.
pub record Voice (E : Type 0) : Type 0 where
  pub label : ℕ
  pub embedding : E

-- What a pass carries along: the registry, the entries that are claimed, who claimed which, and how many
-- speakers the channel has.
pub record Pass (E : Type 0) : Type 0 where
  pub clusters : List (Cluster E)
  pub claimed : List ℕ
  pub label_to_idx : List (ℕ × ℕ)
  pub speakers : ℕ

-- A pass begins with nothing claimed.
abbrev pub fresh : {E : Type 0} → List (Cluster E) → ℕ → Pass E
fresh clusters speakers = record {
  clusters = clusters;
  claimed = [];
  label_to_idx = [];
  speakers = speakers;
}

-- The speaker of an entry.
abbrev pub speaker_at : {E : Type 0} → ℕ → List (Cluster E) → Option ℕ
speaker_at i [] = none
speaker_at zero (c ∷ cs) = c.speaker_id
speaker_at (suc i) (c ∷ cs) = speaker_at i cs

module _ {E : Type 0} (similarity : E → E → ℕ) (blend : E → ℕ → E → E) where
  -- Is a similarity above the best one so far, which starts at -1?
  abbrev pub above : Option (ℕ × ℕ) → ℕ → Bool
  above none sim = ltb 0 sim
  above (some (i, best)) sim = ltb best sim

  -- The loop of `best_match`, with the index of the next entry and the best one so far.
  unfoldable pub best_from : E → List ℕ → ℕ → Option (ℕ × ℕ) → List (Cluster E) → Option (ℕ × ℕ)
  best_from embedding exclude i best [] = best
  best_from embedding exclude i best (c ∷ cs) =
      let sim = similarity embedding c.centroid in
      let kept = best_from embedding exclude (suc i) best cs in
      let taken = best_from embedding exclude (suc i) (some (i, sim)) cs in
      if any (λ j. j == i) exclude then kept else if above best sim then taken else kept

  unfoldable pub best_match : List (Cluster E) → E → List ℕ → Option (ℕ × ℕ)
  unfolding best_from
  best_match clusters embedding exclude = best_from embedding exclude 0 none clusters

  unfoldable pub update_centroid : Cluster E → E → Cluster E
  update_centroid c embedding = record c {
    centroid = blend c.centroid c.count embedding;
    count = c.count + 1;
  }

  abbrev pub update_at : ℕ → E → List (Cluster E) → List (Cluster E)
  update_at i embedding [] = []
  update_at zero embedding (c ∷ cs) = update_centroid c embedding ∷ cs
  update_at (suc i) embedding (c ∷ cs) = c ∷ update_at i embedding cs

  module _ (threshold : ℕ) (recognize : E → Option ℕ) where
    -- `idx is not None and sim >= SIMILARITY_THRESHOLD`
    abbrev pub matched : Option (ℕ × ℕ) → Option ℕ
    matched none = none
    matched (some (i, sim)) = if leb threshold sim then some i else none

    -- An entry for a voice that none claims: a speaker if it is recognized or the channel's first, and
    -- provisional else.
    unfoldable pub register : E → Pass E → Pass E
    register embedding p =
        let promoted = is_some (recognize embedding) || length p.clusters == 0 in
        record p {
          clusters =
              p.clusters
              ++ record {
                centroid = embedding;
                count = 1;
                weight_ms = 0;
                speaker_id = if promoted then some (p.speakers + 1) else none;
              }
                ∷ [];
          speakers = if promoted then p.speakers + 1 else p.speakers;
        }

    abbrev claim : ℕ → ℕ → Pass E → Pass E
    claim label idx p = record p {
      claimed = idx ∷ p.claimed;
      label_to_idx = p.label_to_idx ++ (label, idx) ∷ [];
    }

    abbrev pub claim_for : Voice E → Option ℕ → Pass E → Pass E
    claim_for v (some i) p =
        claim v.label i (record p { clusters = update_at i v.embedding p.clusters })
    claim_for v none p = claim v.label (length p.clusters) (register v.embedding p)

    -- The loop over the local voices, the busiest first.
    unfoldable pub claims : List (Voice E) → Pass E → Pass E
    claims [] p = p
    claims (v ∷ vs) p =
        claims vs (claim_for v (matched (best_match p.clusters v.embedding p.claimed)) p)
