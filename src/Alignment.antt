-- ===== src/Alignment.antt =====
-- Who said what: server/app/services/alignment/align.py, which gives each segment of a transcript the voice
-- that it overlaps most, and the two loops that put together what one voice says in a row,
-- `_group_words_by_speaker` of server/app/ws/live_session.py and `_merge_adjacent_same_speaker` of
-- server/app/workers/tasks.py. Times are numbers in some unit that is fine enough; voices are numbers.
pub mod Best
pub mod Runs
mod Tests
use corella.Prelude.{
  ℕ, ◌-◌, min, max, Bool, true, false, Option, none, some, List, [], ◌∷◌, ◌++◌, map, ltb, ◌==◌,
  if◌then◌else◌, Text,
}

pub record WhisperWord : Type 0 where
  pub start : ℕ
  pub end : ℕ
  pub word : Text
  pub speaker : Option ℕ

pub record WhisperSegment : Type 0 where
  pub start : ℕ
  pub end : ℕ
  pub text : Text

pub record DiarizationTurn : Type 0 where
  pub start : ℕ
  pub end : ℕ
  pub speaker : ℕ

pub record AlignedSegment : Type 0 where
  pub start_ms : ℕ
  pub end_ms : ℕ
  pub text : Text
  pub speaker : Option ℕ

-- `overlap`; a negative one is no more than the best, as 0 is.
abbrev pub overlap : WhisperSegment → DiarizationTurn → ℕ
overlap seg turn = min seg.end turn.end - max seg.start turn.start

unfoldable pub best_from : WhisperSegment → Option ℕ → ℕ → List DiarizationTurn → Option ℕ
best_from seg best_speaker best_overlap [] = best_speaker
best_from seg best_speaker best_overlap (turn ∷ turns) =
    let better = best_from seg (some turn.speaker) (overlap seg turn) turns in
    let kept = best_from seg best_speaker best_overlap turns in
    if ltb best_overlap (overlap seg turn) then better else kept

unfoldable pub best_overlapping_speaker : WhisperSegment → List DiarizationTurn → Option ℕ
unfolding best_from
best_overlapping_speaker seg turns = best_from seg none 0 turns

-- `to_ms` is `round(seconds * 1000)`.
unfoldable pub align : (ℕ → ℕ) → List WhisperSegment → List DiarizationTurn → List AlignedSegment
unfolding best_overlapping_speaker
align to_ms segments turns =
    map
      (λ seg. record {
        start_ms = to_ms seg.start;
        end_ms = to_ms seg.end;
        text = seg.text;
        speaker = best_overlapping_speaker seg turns;
      })
      segments

-- `runs[-1][0] == w.speaker`
abbrev pub same_speaker : Option ℕ → Option ℕ → Bool
same_speaker none none = true
same_speaker none (some b) = false
same_speaker (some a) none = false
same_speaker (some a) (some b) = a == b

-- One round of `_group_words_by_speaker`: the last run is extended, or a run is appended.
unfoldable pub put_word :
    List (Option ℕ × List WhisperWord) → WhisperWord → List (Option ℕ × List WhisperWord)
put_word [] w = (w.speaker, w ∷ []) ∷ []
put_word ((speaker, ws) ∷ []) w =
    if same_speaker speaker w.speaker
    then (speaker, ws ++ w ∷ []) ∷ []
    else (speaker, ws) ∷ (w.speaker, w ∷ []) ∷ []
put_word (run ∷ next ∷ runs) w = run ∷ put_word (next ∷ runs) w

unfoldable pub group_from :
    List (Option ℕ × List WhisperWord) → List WhisperWord → List (Option ℕ × List WhisperWord)
unfolding put_word
group_from runs [] = runs
group_from runs (w ∷ words) = group_from (put_word runs w) words

unfoldable pub group_words_by_speaker : List WhisperWord → List (Option ℕ × List WhisperWord)
unfolding group_from
group_words_by_speaker words = group_from [] words

-- One round of `_merge_adjacent_same_speaker`: the last span is extended to the end of the turn, or a span
-- is appended.
unfoldable pub put_turn : List (ℕ × ℕ × ℕ) → DiarizationTurn → List (ℕ × ℕ × ℕ)
put_turn [] t = (t.start, t.end, t.speaker) ∷ []
put_turn ((start, end, speaker) ∷ []) t =
    if speaker == t.speaker
    then (start, t.end, t.speaker) ∷ []
    else (start, end, speaker) ∷ (t.start, t.end, t.speaker) ∷ []
put_turn (span ∷ next ∷ spans) t = span ∷ put_turn (next ∷ spans) t

unfoldable pub merge_from : List (ℕ × ℕ × ℕ) → List DiarizationTurn → List (ℕ × ℕ × ℕ)
unfolding put_turn
merge_from merged [] = merged
merge_from merged (t ∷ turns) = merge_from (put_turn merged t) turns

unfoldable pub merge_adjacent_same_speaker : List DiarizationTurn → List (ℕ × ℕ × ℕ)
unfolding merge_from
merge_adjacent_same_speaker turns = merge_from [] turns
