-- ===== src/Transcript/Share.antt =====
-- `speaker_share` of server/app/services/transcript_format.py. `percent ms total` is
-- `round(ms / total * 100)`, which floating point computes.
use corella.Prelude.{
  ℕ, ◌+◌, ◌-◌, max, ◌≡◌, Bool, Option, none, some, List, [], ◌∷◌, ltb, ◌==◌, if◌then◌else◌, Text,
  text_eq, arith,
}
use corella.Transcript.{TranscriptSegment, CaptureMode, display_labels}

-- `ms_by_label[label] += duration`, in the order of `order`
abbrev pub add_ms : Text → ℕ → List (Text × ℕ) → List (Text × ℕ)
add_ms label d [] = (label, d) ∷ []
add_ms label d ((l, ms) ∷ rows) =
    let rest = add_ms label d rows in if text_eq l label then (l, ms + d) ∷ rows else (l, ms) ∷ rest

abbrev pub duration : TranscriptSegment → ℕ
duration segment = segment.end_ms - segment.start_ms

unfoldable pub ms_by_label : List (Text × TranscriptSegment) → List (Text × ℕ) → List (Text × ℕ)
ms_by_label [] rows = rows
ms_by_label ((label, segment) ∷ lines) rows =
    let silent = ms_by_label lines rows in
    let spoken = ms_by_label lines (add_ms label (duration segment) rows) in
    if duration segment == 0 then silent else spoken

abbrev pub sum : List (Text × ℕ) → ℕ
sum [] = 0
sum ((label, n) ∷ rows) = n + sum rows

abbrev pub zip : List Text → List TranscriptSegment → List (Text × TranscriptSegment)
zip [] segments = []
zip (l ∷ ls) [] = []
zip (l ∷ ls) (s ∷ ss) = (l, s) ∷ zip ls ss

module _ (percent : ℕ → ℕ → ℕ) where
  -- The percents, where `used` is the sum of those before: the last is what is left of 100. If that is
  -- below zero, it is not shown, as zero is not.
  unfoldable pub shown : ℕ → ℕ → List (Text × ℕ) → List (Text × ℕ)
  shown total used [] = []
  shown total used ((label, ms) ∷ rows) =
      let p = percent ms total in
      let rest = shown total (used + p) rows in
      last_or rows (if ltb 0 (100 - used) then (label, 100 - used) ∷ [] else [])
        (if ltb 0 p then (label, p) ∷ rest else rest)
    where
      last_or : List (Text × ℕ) → List (Text × ℕ) → List (Text × ℕ) → List (Text × ℕ)
      last_or [] last more = last
      last_or (r ∷ rs) last more = more

  unfoldable pub speaker_share :
      (ℕ → Bool) → ℕ → CaptureMode → List TranscriptSegment → Option (List (Text × ℕ))
  unfolding shown ms_by_label
  speaker_share is_digit owner_id capture_mode segments =
      let rows =
        ms_by_label (zip (display_labels is_digit owner_id capture_mode segments) segments) [] in
      if sum rows == 0 then none else some (shown (sum rows) 0 rows)

  -- The percents of all but the last speaker.
  abbrev pub all_but_last : ℕ → List (Text × ℕ) → ℕ
  all_but_last total [] = 0
  all_but_last total (r ∷ []) = 0
  all_but_last total (r ∷ q ∷ rows) = percent r.1 total + all_but_last total (q ∷ rows)

  shown_on_used :
      (total used : ℕ) (r : Text × ℕ) (rows : List (Text × ℕ))
      → sum (shown total used (r ∷ rows)) + used
        ≡ max (100 + 0) (used + all_but_last total (r ∷ rows))
  unfolding shown
  shown_on_used total used r [] = ground arith
  shown_on_used total used r (q ∷ rows) =
      ground (arith, shown_on_used total (used + percent r.1 total) q rows)

  -- The shown percents add up to 100, or to the rounded percents of all but the last speaker where these
  -- are more than 100.
  pub shown-sum :
      (total : ℕ) (r : Text × ℕ) (rows : List (Text × ℕ))
      → sum (shown total 0 (r ∷ rows)) ≡ max 100 (all_but_last total (r ∷ rows))
  shown-sum total r rows = omega (arith, shown_on_used total 0 r rows)

abbrev pub durations : List (Text × TranscriptSegment) → ℕ
durations [] = 0
durations ((label, segment) ∷ lines) = duration segment + durations lines

add_ms-sum :
    (label : Text) (d : ℕ) (rows : List (Text × ℕ)) → sum (add_ms label d rows) ≡ sum rows + d
add_ms-sum label d [] = omega arith
add_ms-sum label d ((l, ms) ∷ rows) = ground (arith, add_ms-sum label d rows)

-- The times of the labels add up to the durations of the lines.
pub ms_by_label-sum :
    (lines : List (Text × TranscriptSegment)) (rows : List (Text × ℕ))
    → sum (ms_by_label lines rows) ≡ sum rows + durations lines
unfolding ms_by_label
ms_by_label-sum [] rows = omega arith
ms_by_label-sum ((label, segment) ∷ lines) rows = ground (
  arith,
  ms_by_label-sum lines rows,
  ms_by_label-sum lines (add_ms label (duration segment) rows),
  add_ms-sum label (duration segment) rows,
)
