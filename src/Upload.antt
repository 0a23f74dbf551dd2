-- ===== src/Upload.antt =====
-- `process_meeting_audio` of server/app/workers/tasks.py: an uploaded recording becomes a transcript with
-- its speakers. What ffmpeg, the transcription and the diarization give is a parameter, `Calls`.
pub mod Voices
pub mod Outcome
mod Tests
use corella.Prelude.{
  ℕ, suc, ◌+◌, Bool, true, false, not, Option, none, some, List, [], ◌∷◌, ◌++◌, map, any, ◌==◌,
  if◌then◌else◌, length, take, Text,
}
use corella.LiveSession.Finish.{Status, ready, failed}
use corella.Alignment.{WhisperSegment, DiarizationTurn, AlignedSegment, align}

-- The label is "Speaker n", for the number n.
pub record Speaker : Type 0 where
  pub id : ℕ
  pub number : ℕ

pub record TranscriptSegment : Type 0 where
  pub speaker_id : Option ℕ
  pub start_ms : ℕ
  pub end_ms : ℕ
  pub text : Text

-- The meeting with its rows. New rows have the ids from `next_id` on.
pub record Meeting : Type 0 where
  pub has_audio : Bool
  pub status : Status
  pub processing_error : Option Text
  pub ended_at : Option ℕ
  pub speakers : List Speaker
  pub segments : List TranscriptSegment
  pub next_id : ℕ

-- `deepgram` is none where the resolution raises, and has none in it where Whisper is to transcribe;
-- `diarized` is none where diarization is not available or fails; `stores` says that the rows, the
-- duration and the commit do not raise; `message` is the text of what was raised, and `recovers` says that
-- the rollback and the commit of the `except` do not raise.
pub record Calls : Type 0 where
  pub normalizes : Bool
  pub deepgram : Option (Option (List WhisperSegment))
  pub whisper : Option (List WhisperSegment)
  pub diarized : Option (List DiarizationTurn)
  pub stores : Bool
  pub message : Text
  pub recovers : Bool

abbrev pub transcribed :
    Option (Option (List WhisperSegment))
    → Option (List WhisperSegment)
    → Option (List WhisperSegment)
transcribed none whisper = none
transcribed (some none) whisper = whisper
transcribed (some (some segments)) whisper = some segments

abbrev pub turns_of : Option (List DiarizationTurn) → List DiarizationTurn
turns_of none = []
turns_of (some turns) = turns

-- `dict.fromkeys(a.speaker for a in aligned if a.speaker)`
abbrev pub add_label : List ℕ → Option ℕ → List ℕ
add_label labels none = labels
add_label labels (some l) = if any (λ k. k == l) labels then labels else labels ++ l ∷ []

unfoldable pub labels_from : List ℕ → List AlignedSegment → List ℕ
unfolding any
labels_from labels [] = labels
labels_from labels (a ∷ aligned) = labels_from (add_label labels a.speaker) aligned

-- `speakers_by_label`; the dict has `count` entries before.
unfoldable pub speakers_by_label : ℕ → ℕ → List ℕ → List (ℕ × Speaker)
speakers_by_label next_id count [] = []
speakers_by_label next_id count (l ∷ labels) =
    (l, record { id = next_id; number = count + 1 })
    ∷ speakers_by_label (next_id + 1) (count + 1) labels

-- `speakers_by_label[label]`, none for the KeyError.
unfoldable pub speaker_for : ℕ → List (ℕ × Speaker) → Option Speaker
speaker_for l [] = none
speaker_for l ((k, speaker) ∷ table) =
    let rest = speaker_for l table in if k == l then some speaker else rest

abbrev pub segment : AlignedSegment → Option ℕ → TranscriptSegment
segment a speaker_id = record {
  speaker_id = speaker_id;
  start_ms = a.start_ms;
  end_ms = a.end_ms;
  text = a.text;
}

abbrev pub with_segment :
    TranscriptSegment → Option (List TranscriptSegment) → Option (List TranscriptSegment)
with_segment s none = none
with_segment s (some segments) = some (s ∷ segments)

abbrev pub with_speaker :
    AlignedSegment
    → Option Speaker
    → Option (List TranscriptSegment)
    → Option (List TranscriptSegment)
with_speaker a none rest = none
with_speaker a (some speaker) rest = with_segment (segment a (some speaker.id)) rest

abbrev pub put_segment :
    List (ℕ × Speaker)
    → AlignedSegment
    → Option ℕ
    → Option (List TranscriptSegment)
    → Option (List TranscriptSegment)
put_segment table a none rest = with_segment (segment a none) rest
put_segment table a (some l) rest = with_speaker a (speaker_for l table) rest

unfoldable pub segments_of :
    List (ℕ × Speaker) → List AlignedSegment → Option (List TranscriptSegment)
unfolding speaker_for
segments_of table [] = some []
segments_of table (a ∷ aligned) = put_segment table a a.speaker (segments_of table aligned)

abbrev pub or_now : ℕ → Option ℕ → Option ℕ
or_now now none = some now
or_now now (some t) = some t

-- The `except`; where it raises, the meeting stays as it is stored.
abbrev pub recover : Calls → Meeting → Meeting
recover calls m =
    if calls.recovers
    then record m { status = failed; processing_error = some (take 2000 calls.message) }
    else m

-- The rows in the `try`, committed or not.
abbrev pub commit :
    ℕ → Calls → List (ℕ × Speaker) → Option (List TranscriptSegment) → Meeting → Meeting
commit now calls table none m = recover calls m
commit now calls table (some segments) m =
    if calls.stores
    then record m {
      status = ready;
      processing_error = none;
      ended_at = or_now now m.ended_at;
      speakers = m.speakers ++ map (λ r. r.1) table;
      segments = m.segments ++ segments;
      next_id = m.next_id + length table;
    }
    else recover calls m

abbrev pub process_with : (ℕ → ℕ) → ℕ → Calls → Option (List WhisperSegment) → Meeting → Meeting
process_with to_ms now calls none m = recover calls m
process_with to_ms now calls (some asr_segments) m =
    let aligned = align to_ms asr_segments (turns_of calls.diarized) in
    let table = speakers_by_label m.next_id 0 (labels_from [] aligned) in
    commit now calls table (segments_of table aligned) m

unfoldable pub process_meeting_audio : (ℕ → ℕ) → ℕ → Calls → Meeting → Meeting
unfolding take align labels_from speakers_by_label segments_of
process_meeting_audio to_ms now calls m =
    if not m.has_audio
    then m
    else if not calls.normalizes
    then recover calls m
    else process_with to_ms now calls (transcribed calls.deepgram calls.whisper) m
