-- ===== src/Diarization/Assign.antt =====
-- The loop of `reconcile_diarization` in server/app/workers/tasks.py that gives the segments of a window
-- to the voices that claimed an entry of the registry.
use corella.Prelude.{
  ℕ, zero, suc, ◌+◌, ◌-◌, ◌<◌, min, max, ◌≡◌, refl, ap, ◌∙◌, Bool, not, ◌&&◌, Option, none, some,
  List, [], ◌∷◌, ◌==◌, ltb, if◌then◌else◌, any, is_some, length, All, arith,
}
use mathlib.Core.Path.{subst, sym}
use corella.Diarization.{Cluster, speaker_at}

pub record Segment : Type 0 where
  pub id : ℕ
  pub start_ms : ℕ
  pub end_ms : ℕ
  pub speaker_id : Option ℕ

-- A segment that waits for its entry to earn a speaker.
pub record PendingSegment : Type 0 where
  pub segment_id : ℕ
  pub cluster_index : ℕ

-- `sum(max(0, min(...) - max(...)) for start, end in spans_abs)`
abbrev pub overlap : Segment → List (ℕ × ℕ) → ℕ
overlap s [] = 0
overlap s ((start, end) ∷ spans) = (min s.end_ms end - max s.start_ms start) + overlap s spans

-- The label of most overlap, and the overlap; the first one where several have it.
unfoldable pub best_label : Segment → Option ℕ → ℕ → List (ℕ × List (ℕ × ℕ)) → Option ℕ
best_label s label best [] = label
best_label s label best ((l, spans) ∷ more) =
    let kept = best_label s label best more in
    let taken = best_label s (some l) (overlap s spans) more in
    if ltb best (overlap s spans) then taken else kept

-- `label_to_idx[best_label]`
abbrev pub index_of : List (ℕ × ℕ) → Option ℕ → Option ℕ
index_of [] label = none
index_of table none = none
index_of ((l, i) ∷ table) (some label) =
    let rest = index_of table (some label) in if l == label then some i else rest

module _ (window_start window_end : ℕ) (spans_by_label : List (ℕ × List (ℕ × ℕ)))
    (label_to_idx : List (ℕ × ℕ)) (pending : List PendingSegment) where
  -- The query, and the test on `already_pending_ids`.
  abbrev pub is_candidate : Segment → Bool
  is_candidate s =
      not (is_some s.speaker_id)
      && ltb s.start_ms window_end
      && ltb window_start s.end_ms
      && not (any (λ p. p.segment_id == s.id) pending)

  abbrev pub entry_for : Segment → Option ℕ
  entry_for s = index_of label_to_idx (best_label s none 0 spans_by_label)

  abbrev pub given : Option ℕ → Segment → List (Segment × ℕ) → List (Segment × ℕ)
  given none s rest = rest
  given (some i) s rest = (s, i) ∷ rest

  -- The segments that the loop gives to an entry, each with the entry's index.
  unfoldable pub assigned : List Segment → List (Segment × ℕ)
  unfolding best_label
  assigned [] = []
  assigned (s ∷ segs) =
      let rest = assigned segs in if is_candidate s then given (entry_for s) s rest else rest

-- A segment ends no earlier than it starts.
abbrev pub duration : Segment → ℕ
duration s = s.end_ms - s.start_ms

abbrev pub durations : List (Segment × ℕ) → ℕ
durations [] = 0
durations ((s, i) ∷ rest) = duration s + durations rest

-- What gets a speaker now, and what waits.
abbrev pub place :
    Option ℕ → ℕ → ℕ → List (ℕ × ℕ) × List PendingSegment → List (ℕ × ℕ) × List PendingSegment
place (some speaker) id i (labelled, waiting) = ((id, speaker) ∷ labelled, waiting)
place none id i (labelled, waiting) =
    (labelled, record { segment_id = id; cluster_index = i } ∷ waiting)

module _ {E : Type 0} where
  -- `clusters[idx].weight_ms += ...`
  abbrev pub add_weight : ℕ → ℕ → List (Cluster E) → List (Cluster E)
  add_weight i d [] = []
  add_weight zero d (c ∷ cs) = record c { weight_ms = c.weight_ms + d } ∷ cs
  add_weight (suc i) d (c ∷ cs) = c ∷ add_weight i d cs

  unfoldable pub add_weights : List (Segment × ℕ) → List (Cluster E) → List (Cluster E)
  add_weights [] clusters = clusters
  add_weights ((s, i) ∷ rest) clusters = add_weights rest (add_weight i (duration s) clusters)

  unfoldable pub placed : List (Cluster E) → List (Segment × ℕ) → List (ℕ × ℕ) × List PendingSegment
  placed clusters [] = ([], [])
  placed clusters ((s, i) ∷ rest) = place (speaker_at i clusters) s.id i (placed clusters rest)

  abbrev pub total_weight : List (Cluster E) → ℕ
  total_weight [] = 0
  total_weight (c ∷ cs) = c.weight_ms + total_weight cs

  length-add_weight : (i d : ℕ) (cs : List (Cluster E)) → length (add_weight i d cs) ≡ length cs
  length-add_weight i d [] = refl
  length-add_weight zero d (c ∷ cs) = refl
  length-add_weight (suc i) d (c ∷ cs) = ap suc (length-add_weight i d cs)

  total-add_weight :
      (i d : ℕ) (cs : List (Cluster E))
      → i < length cs
      → total_weight (add_weight i d cs) ≡ total_weight cs + d
  total-add_weight i d [] h = absurd (omega arith)
  total-add_weight zero d (c ∷ cs) h = omega arith
  total-add_weight (suc i) d (c ∷ cs) h = omega (arith, total-add_weight i d cs (omega arith))

  -- Where the given entries are in the registry, its weight grows by the durations of the segments that
  -- were given, each counted once.
  pub add_weights-total :
      (given_to : List (Segment × ℕ)) (cs : List (Cluster E))
      → All (λ r. r.1 < length cs) given_to
      → total_weight (add_weights given_to cs) ≡ total_weight cs + durations given_to
  unfolding add_weights
  add_weights-total [] cs h = omega arith
  add_weights-total ((s, i) ∷ rest) cs (low, h) = omega (
    arith,
    add_weights-total rest (add_weight i (duration s) cs)
        (subst (λ n. All (λ r. r.1 < n) rest) (sym (length-add_weight i (duration s) cs)) h),
    total-add_weight i (duration s) cs low,
  )

  abbrev pub IsWaiting : List (Cluster E) → PendingSegment → Type 0
  IsWaiting clusters p = speaker_at p.cluster_index clusters ≡ none

  place-IsWaiting :
      (clusters : List (Cluster E)) (o : Option ℕ) (id i : ℕ)
      (r : List (ℕ × ℕ) × List PendingSegment)
      → speaker_at i clusters ≡ o
      → All (IsWaiting clusters) r.1
      → All (IsWaiting clusters) (place o id i r).1
        × (length (place o id i r).0 + length (place o id i r).1 ≡ suc (length r.0 + length r.1))
  place-IsWaiting clusters none id i r e h = ((e, h), omega arith)
  place-IsWaiting clusters (some n) id i r e h = (h, omega arith)

  -- Each segment that the loop gives to an entry is put in one place: the labelled and the newly waiting
  -- ones together are as many as were given, and the entry of every newly waiting one has no speaker yet.
  pub placed-IsWaiting :
      (clusters : List (Cluster E)) (given_to : List (Segment × ℕ))
      → All (IsWaiting clusters) (placed clusters given_to).1
        × (length (placed clusters given_to).0 + length (placed clusters given_to).1
            ≡ length given_to)
  unfolding placed
  placed-IsWaiting clusters [] = (tt, refl)
  placed-IsWaiting clusters ((s, i) ∷ rest) =
      let ih = placed-IsWaiting clusters rest in
      let one =
        place-IsWaiting clusters (speaker_at i clusters) s.id i (placed clusters rest) refl ih.0 in
      (one.0, one.1 ∙ ap suc ih.1)
