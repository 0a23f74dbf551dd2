-- ===== src/Upload/Tests.antt =====
-- Short uploads for `process_meeting_audio` of server/app/workers/tasks.py.
use corella.Prelude.{ℕ, ◌*◌, ◌≡◌, refl, true, false, none, some, List, [], ◌∷◌, any, take, codes}
use corella.LiveSession.Finish.{processing}
use corella.Alignment.{WhisperSegment}
use corella.Upload.{Meeting, Calls, process_meeting_audio}
use corella.Upload.Outcome.{ids, IsOutcome, process_meeting_audio-IsOutcome}

abbrev said : ℕ → ℕ → WhisperSegment
said start end = record { start = start; end = end; text = codes "so" }

-- The voice 7 speaks first, then 3, then 7 again, and at last somebody unheard.
abbrev asr : List WhisperSegment
asr = said 0 2 ∷ said 2 4 ∷ said 4 6 ∷ said 9 10 ∷ []

abbrev calls : Calls
calls = record {
  normalizes = true;
  deepgram = some none;
  whisper = some asr;
  diarized = some (
      record { start = 0; end = 2; speaker = 7 }
      ∷ record { start = 2; end = 4; speaker = 3 }
      ∷ record { start = 4; end = 6; speaker = 7 }
      ∷ []);
  stores = true;
  message = [];
  recovers = true;
}

abbrev uploaded : Meeting
uploaded = record {
  has_audio = true;
  status = processing;
  processing_error = none;
  ended_at = none;
  speakers = [];
  segments = [];
  next_id = 20;
}

abbrev thousand : ℕ → ℕ
thousand t = t * 1000

process_meeting_audio-IsOutcome_example :
    IsOutcome calls true 4 uploaded (process_meeting_audio thousand 99 calls uploaded)
process_meeting_audio-IsOutcome_example =
    process_meeting_audio-IsOutcome thousand 99 calls uploaded refl

abbrev lost : Calls
lost = record calls { stores = false; message = codes "disk full"; recovers = false }

-- The recovery raises as well: the meeting is left at processing.
left_processing : (process_meeting_audio thousand 99 lost uploaded).status ≡ processing
unfolding process_meeting_audio any
left_processing = refl

recorded :
    (process_meeting_audio thousand 99 (record lost { recovers = true }) uploaded).processing_error
    ≡ some (codes "disk full")
unfolding process_meeting_audio any take
recorded = refl

two_speakers :
    let m = process_meeting_audio thousand 99 calls uploaded in
    (m.speakers ≡ record { id = 20; number = 1 } ∷ record { id = 21; number = 2 } ∷ [])
    × (ids m.segments ≡ some 20 ∷ some 21 ∷ some 20 ∷ none ∷ [])
    × (m.ended_at ≡ some 99)
    × (m.next_id ≡ 22)
unfolding process_meeting_audio any
two_speakers = (refl, refl, refl, refl)
