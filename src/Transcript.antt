-- ===== src/Transcript.antt =====
-- The names of the speakers in a transcript: server/app/services/transcript_format.py. `is_digit` is
-- what `\d` of the library `re` accepts.
pub mod Decimal
pub mod Aliases
pub mod Table
pub mod Names
pub mod Share
mod Tests
use corella.Prelude.{
  ℕ, zero, suc, ◌+◌, ◌/◌, ◌%◌, Bool, true, false, not, ◌&&◌, ◌||◌, Option, none, some, List, [],
  ◌∷◌, ◌++◌, ◌==◌, ltb, if◌then◌else◌, drop, length, any, Text, text_eq, nonempty, codes,
  starts_with,
}

pub data Channel : Type 0 where
  me them unknown : Channel

abbrev pub same_channel : Channel → Channel → Bool
same_channel me me = true
same_channel them them = true
same_channel unknown unknown = true
same_channel _ _ = false

pub data CaptureMode : Type 0 where
  open_mic meeting_tab : CaptureMode

pub record TranscriptSegment : Type 0 where
  pub speaker_id : Option ℕ
  pub speaker_label : Option Text
  pub linked_user_id : Option ℕ
  pub channel : Channel
  pub start_ms : ℕ
  pub end_ms : ℕ
  pub text : Text

-- `segment.linked_user_id is not None and segment.linked_user_id == owner_id`
abbrev pub is_owner : Option ℕ → ℕ → Bool
is_owner none owner_id = false
is_owner (some u) owner_id = u == owner_id

-- `if segment.speaker_label: return segment.speaker_label`, else a fallback
abbrev pub label_or : Option Text → Text → Text
label_or none fallback = fallback
label_or (some l) fallback = if nonempty l then l else fallback

abbrev pub by_channel : CaptureMode → Channel → Text
by_channel meeting_tab me = codes "Me"
by_channel meeting_tab them = codes "Them"
by_channel meeting_tab unknown = codes "Unknown"
by_channel open_mic channel = codes "Unknown"

unfoldable pub raw_label : TranscriptSegment → ℕ → CaptureMode → Text
raw_label segment owner_id capture_mode =
    if is_owner segment.linked_user_id owner_id
    then codes "Me"
    else label_or segment.speaker_label (by_channel capture_mode segment.channel)

-- `str(n)`: the last digit behind those of the rest.
unfoldable pub digits : ℕ → ℕ → Text
digits zero n = []
digits (suc fuel) n =
    let rest = digits fuel (n / 10) in
    if ltb n 10 then (48 + n) ∷ [] else rest ++ (48 + n % 10) ∷ []

unfoldable pub str : ℕ → Text
unfolding digits
str n = digits (n + 1) n

-- `f"Speaker {n}"`
unfoldable pub speaker : ℕ → Text
unfolding str
speaker n = codes "Speaker " ++ str n

pub data Key : Type 0 where
  of_speaker : ℕ → Key
  of_channel : Channel → Text → Key

abbrev pub same_key : Key → Key → Bool
same_key (of_speaker a) (of_speaker b) = a == b
same_key (of_channel c s) (of_channel d t) = same_channel c d && text_eq s t
same_key (of_speaker a) (of_channel d t) = false
same_key (of_channel c s) (of_speaker b) = false

abbrev pub key_of : Option ℕ → Channel → Text → Key
key_of none channel raw = of_channel channel raw
key_of (some speaker_id) channel raw = of_speaker speaker_id

-- The dictionary `aliases`, with the numbers of the names.
abbrev pub lookup : Key → List (Key × ℕ) → Option ℕ
lookup k [] = none
lookup k ((j, n) ∷ aliases) = let rest = lookup k aliases in if same_key j k then some n else rest

-- The line's name and what follows: the key has a number, or gets the next one.
abbrev pub aliased : Option ℕ → ℕ → List Text → List Text → List Text
aliased none next_n kept grown = speaker next_n ∷ grown
aliased (some n) next_n kept grown = speaker n ∷ kept

module _ (is_digit : ℕ → Bool) where
  -- Digits up to the end, which `$` finds before a last line feed too.
  unfoldable pub digits_to_end : Text → Bool
  digits_to_end [] = true
  digits_to_end (c ∷ s) =
      let rest = digits_to_end s in (is_digit c && rest) || (c == 10 && not (nonempty s))

  abbrev pub a_digit : Text → Bool
  a_digit [] = false
  a_digit (c ∷ s) = is_digit c

  -- `_ANON_RE`
  unfoldable pub numbered : Text → Text → Bool
  unfolding digits_to_end
  numbered prefix label =
      let s = drop (length prefix) label in starts_with prefix label && a_digit s && digits_to_end s

  unfoldable pub is_anonymous : Text → Bool
  unfolding numbered
  is_anonymous label =
      text_eq label (codes "Unknown")
      || text_eq label (codes "Them")
      || text_eq label (codes "Speaker")
      || numbered (codes "Speaker ") label
      || numbered (codes "Them ") label

  module _ (owner_id : ℕ) (capture_mode : CaptureMode) where
    abbrev pub raw_of : TranscriptSegment → Text
    raw_of segment = raw_label segment owner_id capture_mode

    -- Is the line's name given in its first appearance's order?
    abbrev pub needs_alias : TranscriptSegment → Bool
    needs_alias segment =
        not (text_eq (raw_of segment) (codes "Me")) && is_anonymous (raw_of segment)

    abbrev pub key : TranscriptSegment → Key
    key segment = key_of segment.speaker_id segment.channel (raw_of segment)

    -- The loop, with `aliases` and `next_n`.
    unfoldable pub labels_from : List (Key × ℕ) → ℕ → List TranscriptSegment → List Text
    labels_from aliases next_n [] = []
    labels_from aliases next_n (segment ∷ segments) =
        let raw = raw_of segment in
        let k = key segment in
        let kept = labels_from aliases next_n segments in
        let grown = labels_from (aliases ++ (k, next_n) ∷ []) (next_n + 1) segments in
        if needs_alias segment then aliased (lookup k aliases) next_n kept grown else raw ∷ kept

    unfoldable pub display_labels : List TranscriptSegment → List Text
    unfolding labels_from
    display_labels segments = labels_from [] 1 segments
