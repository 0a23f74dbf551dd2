-- ===== src/Alignment/Best.antt =====
-- The search of server/app/services/alignment/align.py for the voice of a segment, against a description
-- that looks for the largest overlap first.
use mathlib.Core.Path.{ap₂}
use corella.Prelude.{
  ℕ, max, ◌≡◌, arith, Option, none, some, List, [], ◌∷◌, ltb, ◌==◌, if◌then◌else◌, map, refl,
}
use corella.Alignment.{WhisperSegment, DiarizationTurn, AlignedSegment, overlap, best_from, align}

-- The largest overlap of a segment with a turn.
abbrev pub largest : WhisperSegment → List DiarizationTurn → ℕ
largest seg [] = 0
largest seg (turn ∷ turns) = max (overlap seg turn) (largest seg turns)

-- The speaker of the first turn that overlaps the segment this much.
unfoldable pub first_with : WhisperSegment → ℕ → List DiarizationTurn → Option ℕ
first_with seg n [] = none
first_with seg n (turn ∷ turns) =
    let rest = first_with seg n turns in if overlap seg turn == n then some turn.speaker else rest

abbrev pub speaker_of : WhisperSegment → List DiarizationTurn → Option ℕ
speaker_of seg turns =
    if ltb 0 (largest seg turns) then first_with seg (largest seg turns) turns else none

best_from-largest :
    (seg : WhisperSegment) (speaker : Option ℕ) (best : ℕ) (turns : List DiarizationTurn)
    → best_from seg speaker best turns
      ≡ (if ltb best (largest seg turns) then first_with seg (largest seg turns) turns else speaker)
unfolding best_from first_with
best_from-largest seg speaker best [] = ground arith
best_from-largest seg speaker best (turn ∷ turns) = ground (
  arith,
  best_from-largest seg speaker best turns,
  best_from-largest seg (some turn.speaker) (overlap seg turn) turns,
)

abbrev pub speakers : List AlignedSegment → List (Option ℕ)
speakers aligned = map (λ a. a.speaker) aligned

-- Each segment gets the speaker of the first turn among those that it overlaps most, and none where it
-- overlaps no turn; the segments keep their order and their number.
pub align-speakers :
    (to_ms : ℕ → ℕ) (segments : List WhisperSegment) (turns : List DiarizationTurn)
    → speakers (align to_ms segments turns) ≡ map (λ seg. speaker_of seg turns) segments
unfolding align
align-speakers to_ms [] turns = refl
align-speakers to_ms (seg ∷ segments) turns =
    ap₂ ◌∷◌ (best_from-largest seg none 0 turns) (align-speakers to_ms segments turns)
