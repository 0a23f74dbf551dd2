-- ===== src/Diarization/Overlap.antt =====
-- The search of `reconcile_diarization` in server/app/workers/tasks.py for the voice that a segment
-- belongs to, against a description of it that looks for the largest overlap first.
use corella.Prelude.{
  ℕ, max, ◌≡◌, Option, none, some, List, [], ◌∷◌, ◌==◌, ltb, if◌then◌else◌, arith,
}
use corella.Diarization.Assign.{Segment, overlap, best_label}

-- The largest overlap of a segment with a voice.
abbrev pub peak : Segment → List (ℕ × List (ℕ × ℕ)) → ℕ
peak s [] = 0
peak s ((l, spans) ∷ more) = max (overlap s spans) (peak s more)

-- The first voice that has a given overlap with the segment.
unfoldable pub first_with : Segment → ℕ → List (ℕ × List (ℕ × ℕ)) → Option ℕ
first_with s n [] = none
first_with s n ((l, spans) ∷ more) =
    let rest = first_with s n more in if overlap s spans == n then some l else rest

best_label-peak :
    (s : Segment) (label : Option ℕ) (best : ℕ) (table : List (ℕ × List (ℕ × ℕ)))
    → best_label s label best table
      ≡ (if ltb best (peak s table) then first_with s (peak s table) table else label)
unfolding best_label first_with
best_label-peak s label best [] = ground arith
best_label-peak s label best ((l, spans) ∷ more) =
    ground
      (arith, best_label-peak s label best more, best_label-peak s (some l) (overlap s spans) more)

-- The voice that the search ends with is the first one of those that overlap the segment most, and there
-- is none where no voice overlaps the segment at all.
pub best_label_lem :
    (s : Segment) (table : List (ℕ × List (ℕ × ℕ)))
    → best_label s none 0 table
      ≡ (if ltb 0 (peak s table) then first_with s (peak s table) table else none)
best_label_lem s table = best_label-peak s none 0 table
