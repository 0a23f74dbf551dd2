-- ===== src/Alignment/Tests.antt =====
-- Short transcripts for server/app/services/alignment/align.py and the loops over runs of one voice.
use corella.Prelude.{ℕ, ◌*◌, ◌+◌, ◌≡◌, refl, Option, none, some, List, [], ◌∷◌, map, codes}
use corella.Alignment.{
  WhisperWord, DiarizationTurn, align, group_words_by_speaker, merge_adjacent_same_speaker,
}
use corella.Alignment.Best.{speakers}
use corella.Alignment.Runs.{
  AreRuns, spoken, as_word, span, group_words_by_speaker-AreRuns,
  merge_adjacent_same_speaker-group_words_by_speaker,
}

abbrev said : ℕ → Option ℕ → WhisperWord
said t speaker = record { start = t; end = t + 1; word = codes "so"; speaker = speaker }

abbrev words : List WhisperWord
words =
    said 0 (some 0)
    ∷ said 1 (some 0)
    ∷ said 2 (some 1)
    ∷ said 3 none
    ∷ said 4 none
    ∷ said 5 (some 0)
    ∷ []

abbrev turns : List DiarizationTurn
turns =
    record { start = 0; end = 4; speaker = 0 }
    ∷ record { start = 5; end = 9; speaker = 0 }
    ∷ record { start = 8; end = 20; speaker = 1 }
    ∷ []

group_words_by_speaker-AreRuns_example :
    AreRuns (group_words_by_speaker words) × (spoken (group_words_by_speaker words) ≡ words)
group_words_by_speaker-AreRuns_example = group_words_by_speaker-AreRuns words

merge_adjacent_example :
    merge_adjacent_same_speaker turns ≡ map span (group_words_by_speaker (map as_word turns))
merge_adjacent_example = merge_adjacent_same_speaker-group_words_by_speaker turns

four_runs :
    group_words_by_speaker words
    ≡ (some 0, said 0 (some 0) ∷ said 1 (some 0) ∷ [])
      ∷ (some 1, said 2 (some 1) ∷ [])
      ∷ (none, said 3 none ∷ said 4 none ∷ [])
      ∷ (some 0, said 5 (some 0) ∷ [])
      ∷ []
unfolding group_words_by_speaker
four_runs = refl

two_spans : merge_adjacent_same_speaker turns ≡ (0, 9, 0) ∷ (8, 20, 1) ∷ []
unfolding merge_adjacent_same_speaker
two_spans = refl

-- The second segment overlaps two turns alike and gets the first; the third overlaps none.
aligned_speakers :
    speakers (
      align
        (λ t. t * 1000)
        (record { start = 9; end = 12; text = [] }
          ∷ record { start = 3; end = 6; text = [] }
          ∷ record { start = 30; end = 31; text = [] }
          ∷ [])
        turns)
    ≡ some 1 ∷ some 0 ∷ none ∷ []
unfolding align
aligned_speakers = refl
