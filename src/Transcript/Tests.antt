-- ===== src/Transcript/Tests.antt =====
-- Examples for the names of speakers.
use corella.Prelude.{
  ℕ, ◌+◌, ◌*◌, ◌/◌, ◌≤◌, ◌≡◌, refl, Bool, true, ◌&&◌, Option, none, some, List, [], ◌∷◌, map, leb,
  All, Text, text_eq, codes, drop, starts_with, arith,
}
use corella.Transcript.{
  TranscriptSegment, Channel, me, them, meeting_tab, raw_label, is_anonymous, speaker,
  display_labels,
}
use corella.Transcript.Share.{sum, shown, shown-sum}
use corella.Transcript.Names.{same_speaker, display_labels-agree}

abbrev is_digit : ℕ → Bool
is_digit c = leb 48 c && leb c 57

ascii_digits : (c : ℕ) → 48 ≤ c → c ≤ 57 → is_digit c ≡ true
ascii_digits c low high = ground arith

abbrev line : Option ℕ → Option Text → Channel → TranscriptSegment
line speaker_id speaker_label channel = record {
  speaker_id = speaker_id;
  speaker_label = speaker_label;
  linked_user_id = none;
  channel = channel;
  start_ms = 0;
  end_ms = 0;
  text = codes "hi";
}

abbrev talk : List TranscriptSegment
talk =
    line none none me
    ∷ line (some 4) (some (codes "Them 2")) them
    ∷ line none none them
    ∷ line (some 5) (some (codes "Ada")) them
    ∷ line (some 4) (some (codes "Them 2")) them
    ∷ []

labels :
    display_labels is_digit 1 meeting_tab talk
    ≡ codes "Me" ∷ codes "Speaker 1" ∷ codes "Speaker 2" ∷ codes "Ada" ∷ codes "Speaker 1" ∷ []
unfolding display_labels raw_label is_anonymous speaker drop starts_with
labels = refl

display_labels-agree_example :
    (name_of : TranscriptSegment → Text) × (display_labels is_digit 1 meeting_tab talk
      ≡ map name_of talk)
    × All
        (λ s.
          All (λ t. text_eq (name_of s) (name_of t) ≡ same_speaker is_digit 1 meeting_tab s t) talk)
        talk
display_labels-agree_example = display_labels-agree is_digit 1 meeting_tab ascii_digits talk

-- Rounding to the nearest, as `round` does away from the halves.
abbrev nearest : ℕ → ℕ → ℕ
nearest ms total = (ms * 200 + total) / (total * 2)

abbrev spoken : List (Text × ℕ)
spoken = (codes "a", 336) ∷ (codes "b", 337) ∷ (codes "c", 326) ∷ (codes "d", 1) ∷ []

-- Three roundings up, and the last speaker is dropped with a share below nothing.
shown_above : shown nearest 1000 0 spoken ≡ (codes "a", 34) ∷ (codes "b", 34) ∷ (codes "c", 33) ∷ []
unfolding shown
shown_above = refl

shown-sum_example : sum (shown nearest 1000 0 spoken) ≡ 101
shown-sum_example =
    shown-sum nearest 1000 (codes "a", 336)
      ((codes "b", 337) ∷ (codes "c", 326) ∷ (codes "d", 1) ∷ [])

abbrev timed : ℕ → ℕ → TranscriptSegment
timed start end = record {
  speaker_id = none;
  speaker_label = none;
  linked_user_id = none;
  channel = me;
  start_ms = start;
  end_ms = end;
  text = codes "hi";
}
