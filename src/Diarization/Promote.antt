-- ===== src/Diarization/Promote.antt =====
-- The loop of `reconcile_diarization` in server/app/workers/tasks.py that gives a speaker to each voice
-- that has spoken enough by now, and labels the segments that waited for it.
use corella.Prelude.{
  ℕ, zero, suc, ◌+◌, ◌≡◌, refl, ◌∙◌, Bool, true, false, not, ◌&&◌, some, List, [], ◌∷◌, ◌++◌, ◌==◌,
  if◌then◌else◌, is_some, keep, length, length-append, All, arith,
}
use corella.Diarization.{Cluster, Settings, speaker_at, meets_guest_floor}
use corella.Diarization.Assign.{PendingSegment, total_weight, IsWaiting}

-- `resulting` has the id of a segment and the number of its speaker.
pub record Promotion (E : Type 0) : Type 0 where
  pub clusters : List (Cluster E)
  pub pending : List PendingSegment
  pub speakers : ℕ
  pub resulting : List (ℕ × ℕ)

abbrev pub waits_for : ℕ → PendingSegment → Bool
waits_for idx entry = entry.cluster_index == idx

-- The segments that waited for the entry, those that are gone from the database left out.
unfoldable pub drained : (ℕ → Bool) → ℕ → ℕ → List PendingSegment → List (ℕ × ℕ)
drained exists idx speaker [] = []
drained exists idx speaker (p ∷ ps) =
    let rest = drained exists idx speaker ps in
    if waits_for idx p && exists p.segment_id then (p.segment_id, speaker) ∷ rest else rest

not-true : (b : Bool) → not b ≡ true → b ≡ false
not-true true h = absurd (ground arith)
not-true false h = refl

abbrev pub Exist : (ℕ → Bool) → List PendingSegment → Type 0
Exist exists ps = All (λ p. exists p.segment_id ≡ true) ps

either :
    {A : Type 0} (P : A → Type 0) (b : Bool) (x y : A)
    → (b ≡ true → P x)
    → (b ≡ false → P y)
    → P (if b then x else y)
either P true x y t f = t refl
either P false x y t f = f refl

keep-Exist :
    (exists : ℕ → Bool) (q : PendingSegment → Bool) (ps : List PendingSegment)
    → Exist exists ps
    → Exist exists (keep q ps)
unfolding keep
keep-Exist exists q [] h = tt
keep-Exist exists q (p ∷ ps) h =
    either (Exist exists) (q p) (p ∷ keep q ps) (keep q ps) (λ e. (h.0, keep-Exist exists q ps h.1))
      (λ e. keep-Exist exists q ps h.1)

length-drained :
    (exists : ℕ → Bool) (i n : ℕ) (ps : List PendingSegment)
    → Exist exists ps
    → length (drained exists i n ps) + length (keep (λ entry. not (waits_for i entry)) ps)
      ≡ length ps
unfolding keep drained
length-drained exists i n [] h = refl
length-drained exists i n (p ∷ ps) h = ground (arith, h.0, length-drained exists i n ps h.1)

module _ {E : Type 0} where
  abbrev pub name_at : ℕ → ℕ → List (Cluster E) → List (Cluster E)
  name_at i n [] = []
  name_at zero n (c ∷ cs) = record c { speaker_id = some n } ∷ cs
  name_at (suc i) n (c ∷ cs) = c ∷ name_at i n cs

  abbrev pub due : Settings → ℕ → ℕ → List (Cluster E) → Bool
  due settings total i [] = false
  due settings total zero (c ∷ cs) =
      not (is_some c.speaker_id) && meets_guest_floor c total settings
  due settings total (suc i) (c ∷ cs) = due settings total i cs

  -- What the loop does where it does not go on to the next entry: the new speaker has the channel's next
  -- number.
  unfoldable pub promote_new_speaker : (ℕ → Bool) → ℕ → Promotion E → Promotion E
  unfolding drained
  promote_new_speaker exists idx p = record {
    clusters = name_at idx (suc p.speakers) p.clusters;
    pending = keep (λ entry. not (waits_for idx entry)) p.pending;
    speakers = suc p.speakers;
    resulting = p.resulting ++ drained exists idx (suc p.speakers) p.pending;
  }

  -- The loop, for `n` entries from `idx` on; `total` is the weight of them all before it.
  unfoldable pub promotes : (ℕ → Bool) → Settings → ℕ → ℕ → ℕ → Promotion E → Promotion E
  unfolding promote_new_speaker
  promotes exists settings total zero idx p = p
  promotes exists settings total (suc n) idx p =
      let promoted =
        promotes exists settings total n (suc idx) (promote_new_speaker exists idx p) in
      let left = promotes exists settings total n (suc idx) p in
      if due settings total idx p.clusters then promoted else left

  unfoldable pub promote : (ℕ → Bool) → Settings → Promotion E → Promotion E
  unfolding promotes
  promote exists settings p =
      promotes exists settings (total_weight p.clusters) (length p.clusters) 0 p

  speaker_at-name_at :
      (i j n : ℕ) (cs : List (Cluster E))
      → (j == i) ≡ false
      → speaker_at j (name_at i n cs) ≡ speaker_at j cs
  speaker_at-name_at i j n [] h = refl
  speaker_at-name_at zero zero n (c ∷ cs) h = absurd (ground arith)
  speaker_at-name_at zero (suc j) n (c ∷ cs) h = refl
  speaker_at-name_at (suc i) zero n (c ∷ cs) h = refl
  speaker_at-name_at (suc i) (suc j) n (c ∷ cs) h = speaker_at-name_at i j n cs (ground arith)

  name_at-IsWaiting :
      (i n : ℕ) (cs : List (Cluster E)) (ps : List PendingSegment)
      → All (IsWaiting cs) ps
      → All (IsWaiting (name_at i n cs)) (keep (λ entry. not (waits_for i entry)) ps)
  unfolding keep
  name_at-IsWaiting i n cs [] h = tt
  name_at-IsWaiting i n cs (p ∷ ps) h =
      let ih = name_at-IsWaiting i n cs ps h.1 in
      let kept = keep (λ entry. not (waits_for i entry)) ps in
      either (All (IsWaiting (name_at i n cs))) (not (waits_for i p)) (p ∷ kept) kept
        (λ e. (speaker_at-name_at i p.cluster_index n cs (not-true _ e) ∙ h.0, ih)) (λ e. ih)

  promotes-IsWaiting :
      (exists : ℕ → Bool) (settings : Settings) (total n idx : ℕ) (p : Promotion E)
      → All (IsWaiting p.clusters) p.pending
      → All
          (IsWaiting (promotes exists settings total n idx p).clusters)
          (promotes exists settings total n idx p).pending
  unfolding promotes promote_new_speaker
  promotes-IsWaiting exists settings total zero idx p h = h
  promotes-IsWaiting exists settings total (suc n) idx p h =
      either (λ (r : Promotion E). All (IsWaiting r.clusters) r.pending)
        (due settings total idx p.clusters) _ _
        (λ e.
          promotes-IsWaiting exists settings total n (suc idx) (promote_new_speaker exists idx p)
            (name_at-IsWaiting idx (suc p.speakers) p.clusters p.pending h))
        (λ e. promotes-IsWaiting exists settings total n (suc idx) p h)

  -- How many segments a promotion accounts for.
  abbrev pub accounted : Promotion E → ℕ
  accounted p = length p.resulting + length p.pending

  accounted-promote_new_speaker :
      (exists : ℕ → Bool) (idx : ℕ) (p : Promotion E)
      → Exist exists p.pending
      → accounted (promote_new_speaker exists idx p) ≡ accounted p
  unfolding promote_new_speaker
  accounted-promote_new_speaker exists idx p h = omega (
    arith,
    length-append p.resulting (drained exists idx (suc p.speakers) p.pending),
    length-drained exists idx (suc p.speakers) p.pending h,
  )

  accounted-promotes :
      (exists : ℕ → Bool) (settings : Settings) (total n idx : ℕ) (p : Promotion E)
      → Exist exists p.pending
      → accounted (promotes exists settings total n idx p) ≡ accounted p
  unfolding promotes promote_new_speaker
  accounted-promotes exists settings total zero idx p h = refl
  accounted-promotes exists settings total (suc n) idx p h =
      either (λ (r : Promotion E). accounted r ≡ accounted p) (due settings total idx p.clusters) _
        _
        (λ e.
          accounted-promotes exists settings total n (suc idx) (promote_new_speaker exists idx p)
            (keep-Exist exists _ p.pending h)
          ∙ accounted-promote_new_speaker exists idx p h)
        (λ e. accounted-promotes exists settings total n (suc idx) p h)

  -- Where every segment that waits has an entry without a speaker, the promotion leaves it so: no segment
  -- is left behind on an entry that has got a speaker.
  pub promote-IsWaiting :
      (exists : ℕ → Bool) (settings : Settings) (p : Promotion E)
      → All (IsWaiting p.clusters) p.pending
      → All (IsWaiting (promote exists settings p).clusters) (promote exists settings p).pending
  unfolding promote
  promote-IsWaiting exists settings p h =
      promotes-IsWaiting exists settings (total_weight p.clusters) (length p.clusters) 0 p h

  -- Where every segment that waits is still in the database, the labelled and the waiting ones together
  -- are as many after the promotion as before.
  pub accounted-promote :
      (exists : ℕ → Bool) (settings : Settings) (p : Promotion E)
      → Exist exists p.pending
      → accounted (promote exists settings p) ≡ accounted p
  unfolding promote
  accounted-promote exists settings p h =
      accounted-promotes exists settings (total_weight p.clusters) (length p.clusters) 0 p h
