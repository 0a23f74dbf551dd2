-- ===== src/Chunking/Tests.antt =====
-- Examples for the chunker.
use corella.Prelude.{
  ◌≡◌, ◌≤◌, ◌<◌, refl, true, none, some, List, [], ◌∷◌, keep, length, take, drop, strip, is_space,
  All, Text, codes, arith,
}
use corella.Chunking.{Segment, chunk_text, chunk_transcript}
use corella.Chunking.Transcript.{
  Group, segments_of, renders, fits, has_text, chunk_transcript-groups,
}
use corella.Chunking.Windows.{chunks_of, stitch, chunk_text_cuts}

abbrev hello : Segment
hello = record { start_ms = 0; end_ms = 900; text = codes " hello " }

abbrev blank : Segment
blank = record { start_ms = 900; end_ms = 950; text = codes " " }

abbrev there : Segment
there = record { start_ms = 1000; end_ms = 1500; text = codes "there" }

together :
    chunk_transcript 12 (hello ∷ blank ∷ there ∷ [])
    ≡ record { text = codes "hello there"; start_ms = 0; end_ms = 1500 } ∷ []
unfolding chunk_transcript strip is_space
together = refl

apart :
    chunk_transcript 11 (hello ∷ blank ∷ there ∷ [])
    ≡ record { text = codes "hello"; start_ms = 0; end_ms = 900 }
      ∷ record { text = codes "there"; start_ms = 1000; end_ms = 1500 }
      ∷ []
unfolding chunk_transcript strip is_space
apart = refl

chunk_transcript-groups_example :
    (groups : List Group) × (segments_of groups ≡ keep has_text (hello ∷ blank ∷ there ∷ []))
    × (renders groups ≡ chunk_transcript 11 (hello ∷ blank ∷ there ∷ []))
    × All (λ g. fits 11 g ≡ true) groups
chunk_transcript-groups_example = chunk_transcript-groups 11 (hello ∷ blank ∷ there ∷ [])

one_less : 1 < 4
one_less = omega arith

chunk_text_cuts_example :
    (ws : List Text) × (chunk_text 4 1 (codes "one two three") ≡ some (chunks_of ws))
    × (stitch 1 ws ≡ strip (codes "one two three"))
    × All (λ w. length w ≤ 4) ws
chunk_text_cuts_example = chunk_text_cuts 4 1 one_less (codes "one two three")

cut :
    chunk_text 4 1 (codes "one two three")
    ≡ some (codes "one" ∷ codes "two" ∷ codes "o th" ∷ codes "hree" ∷ [])
unfolding chunk_text strip take drop is_space
cut = refl

-- With windows that overlap by all their size, no fuel suffices: here 20 steps.
stuck : chunk_text 4 4 (codes "one two three") ≡ none
unfolding chunk_text strip take drop is_space
stuck = refl
