-- ===== src/Upload/Outcome.antt =====
-- What `process_meeting_audio` of server/app/workers/tasks.py leaves of a meeting.
use corella.Prelude.{
  ℕ, suc, ◌+◌, ◌≡◌, refl, ap, ◌∙◌, arith, Bool, true, false, not, ◌&&◌, Option, none, some, is_some,
  List, [], ◌∷◌, map, if◌then◌else◌, if-elim, ◌++◌, Text, take, length, length-append,
}
use corella.LiveSession.Finish.{ready, failed}
use corella.Alignment.{WhisperSegment, AlignedSegment, align}
use corella.Upload.{
  Speaker, TranscriptSegment, Meeting, Calls, transcribed, turns_of, labels_from, speakers_by_label,
  segment, recover, or_now, commit, process_with, process_meeting_audio,
}
use corella.Upload.Voices.{id_at, labels_from-has, segments_of-id_at}

-- The voices of aligned segments, and the speakers of rows.
abbrev pub voices : List AlignedSegment → List (Option ℕ)
voices aligned = map (λ a. a.speaker) aligned

abbrev pub ids : List TranscriptSegment → List (Option ℕ)
ids segments = map (λ s. s.speaker_id) segments

module _ (id : ℕ) (labels : List ℕ) where
  rows : List AlignedSegment → List TranscriptSegment
  rows aligned = map (λ a. segment a (id_at id labels a.speaker)) aligned

length-map {ℓ κ} :
    {A : Type ℓ} {B : Type κ} (f : A → B) (xs : List A) → length (map f xs) ≡ length xs
length-map f [] = refl
length-map f (x ∷ xs) = ap suc (length-map f xs)

-- The segments of a transcript, if there is one.
abbrev pub count : Option (List WhisperSegment) → ℕ
count none = 0
count (some segments) = length segments

-- What a run comes to: whether the transcript is kept, and of how many segments it is; and if it is not,
-- whether that is recorded.
abbrev pub IsOutcome : Calls → Bool → ℕ → Meeting → Meeting → Type 0
IsOutcome calls kept n m m' =
    (m'.status ≡ (if kept then ready else if calls.recovers then failed else m.status))
    × (m'.processing_error ≡ (
        if kept
        then none
        else if calls.recovers
        then some (take 2000 calls.message)
        else m.processing_error))
    × (length m'.segments ≡ length m.segments + (if kept then n else 0))

recover-IsOutcome :
    (calls : Calls) (n : ℕ) (m : Meeting) → IsOutcome calls false n m (recover calls m)
recover-IsOutcome calls n m = by_recovery calls.recovers (some (take 2000 calls.message))
  where
    by_recovery :
        (b : Bool) (error : Option Text)
        → let m' : Meeting =
            if b then record m { status = failed; processing_error = error } else m in
          (m'.status ≡ (if b then failed else m.status))
          × (m'.processing_error ≡ (if b then error else m.processing_error))
          × (length m'.segments ≡ length m.segments + 0)
    by_recovery true error = (refl, refl, omega arith)
    by_recovery false error = (refl, refl, omega arith)

commit-IsOutcome :
    (now : ℕ) (calls : Calls) (table : List (ℕ × Speaker)) (segments : List TranscriptSegment)
    (n : ℕ) (m : Meeting)
    → length segments ≡ n
    → IsOutcome calls calls.stores n m (commit now calls table (some segments) m)
commit-IsOutcome now calls table segments n m h = by_store calls.stores
  where
    by_store :
        (b : Bool)
        → IsOutcome calls b n m (
            if b
            then record m {
              status = ready;
              processing_error = none;
              ended_at = or_now now m.ended_at;
              speakers = m.speakers ++ map (λ r. r.1) table;
              segments = m.segments ++ segments;
              next_id = m.next_id + length table;
            }
            else recover calls m)
    by_store true =
        (refl, refl, length-append m.segments segments ∙ ap (λ k. length m.segments + k) h)
    by_store false = recover-IsOutcome calls n m

process_with-IsOutcome :
    (to_ms : ℕ → ℕ) (now : ℕ) (calls : Calls) (m : Meeting) (heard : Option (List WhisperSegment))
    → IsOutcome calls
        (is_some heard && calls.stores)
        (count heard)
        m
        (process_with to_ms now calls heard m)
unfolding rows align
process_with-IsOutcome to_ms now calls m none = recover-IsOutcome calls 0 m
process_with-IsOutcome to_ms now calls m (some asr_segments) =
    let aligned = align to_ms asr_segments (turns_of calls.diarized) in
    let labels = labels_from [] aligned in
    rw (segments_of-id_at m.next_id labels aligned (labels_from-has [] aligned)) (
      commit-IsOutcome now calls (speakers_by_label m.next_id 0 labels)
        (rows m.next_id labels aligned) (length asr_segments) m
        (length-map _ aligned ∙ length-align))
  where
    length-align : length (align to_ms asr_segments (turns_of calls.diarized)) ≡ length asr_segments
    length-align = length-map _ asr_segments

both : (b : Bool) → b ≡ true → not b ≡ true → ⊥
both true h g = cc
both false h g = cc

-- A recording with audio, whatever its calls give: the meeting ends ready, without an error and with a
-- segment for each that was transcribed, exactly if the audio is normalized, there is a transcript, and the
-- rows are stored. Otherwise it has no new segment; it is failed, with the first 2000 characters of the
-- message, where the rollback and the commit of the recovery do not raise, and else its status and its
-- error are what they were. Whether the voices can be told apart does not matter.
pub process_meeting_audio-IsOutcome :
    (to_ms : ℕ → ℕ) (now : ℕ) (calls : Calls) (m : Meeting)
    → m.has_audio ≡ true
    → IsOutcome calls
        (calls.normalizes && (is_some (transcribed calls.deepgram calls.whisper) && calls.stores))
        (count (transcribed calls.deepgram calls.whisper))
        m
        (process_meeting_audio to_ms now calls m)
unfolding process_meeting_audio
process_meeting_audio-IsOutcome to_ms now calls m audio =
    if-elim
      (IsOutcome calls
        (calls.normalizes && (is_some (transcribed calls.deepgram calls.whisper) && calls.stores))
        (count (transcribed calls.deepgram calls.whisper)) m)
      (not m.has_audio) m _ (λ e. absurd (both m.has_audio audio e))
      (λ e. by_normal calls.normalizes)
  where
    by_normal :
        (b : Bool)
        → IsOutcome calls
            (b && (is_some (transcribed calls.deepgram calls.whisper) && calls.stores))
            (count (transcribed calls.deepgram calls.whisper))
            m
            (if not b
              then recover calls m
              else process_with to_ms now calls (transcribed calls.deepgram calls.whisper) m)
    by_normal true =
        process_with-IsOutcome to_ms now calls m (transcribed calls.deepgram calls.whisper)
    by_normal false = recover-IsOutcome calls (count (transcribed calls.deepgram calls.whisper)) m
