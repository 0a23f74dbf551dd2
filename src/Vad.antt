-- ===== src/Vad.antt =====
-- server/app/services/vad/vad.py: the utterance detector. The classifier behind it, webrtcvad, is a
-- parameter: a state, and a function that judges a frame and moves the state on.
pub mod Chunks
pub mod Invariant
pub mod Silence
pub mod Speech
mod Tests
use corella.Prelude.{
  ℕ, zero, suc, ◌+◌, ◌*◌, ◌/◌, Bool, ◌&&◌, ◌||◌, Option, none, some, List, [], ◌∷◌, ◌++◌, ltb, leb,
  if◌then◌else◌, length, take, drop,
}

abbrev pub sample_rate : ℕ
sample_rate = 16000

abbrev pub frame_ms : ℕ
frame_ms = 30

abbrev pub bytes_per_sample : ℕ
bytes_per_sample = 2

abbrev pub frame_bytes : ℕ
frame_bytes = sample_rate * frame_ms / 1000 * bytes_per_sample

abbrev pub silence_to_flush_ms : ℕ
silence_to_flush_ms = 500

abbrev pub Bytes : Type 0
Bytes = List ℕ

-- `self` of `UtteranceDetector`; `vad` is the state of the classifier.
pub record Detector (V : Type 0) : Type 0 where
  pub vad : V
  pub max_utterance_ms : ℕ
  pub min_utterance_ms : ℕ
  pub leftover : Bytes
  pub utterance : Bytes
  pub silence_ms : ℕ
  pub speech_ms : ℕ

module _ {V : Type 0} where
  -- `__init__`
  unfoldable pub init : V → ℕ → ℕ → Detector V
  init vad max_utterance_seconds min_utterance_ms = record {
    vad = vad;
    max_utterance_ms = max_utterance_seconds * 1000;
    min_utterance_ms = min_utterance_ms;
    leftover = [];
    utterance = [];
    silence_ms = 0;
    speech_ms = 0;
  }

  -- `_reset`
  unfoldable pub reset : Detector V → Detector V
  reset d = record d { utterance = []; silence_ms = 0; speech_ms = 0 }

  unfoldable pub peek_current_utterance : Detector V → Option Bytes
  peek_current_utterance d = if ltb d.speech_ms d.min_utterance_ms then none else some d.utterance

  unfoldable pub flush_remaining : Detector V → Option Bytes × Detector V
  unfolding reset
  flush_remaining d =
      (if leb d.min_utterance_ms d.speech_ms then some d.utterance else none, reset d)

  -- The `if`/`elif` of `feed`, on the classifier's answer for the frame.
  unfoldable pub hear : Bool → Bytes → Detector V → Detector V
  hear speech frame d =
      if speech
      then record d {
        utterance = d.utterance ++ frame;
        speech_ms = d.speech_ms + frame_ms;
        silence_ms = 0;
      }
      else if ltb 0 d.speech_ms
      then record d { utterance = d.utterance ++ frame; silence_ms = d.silence_ms + frame_ms }
      else d

  unfoldable pub paused : Detector V → Bool
  paused d = leb d.min_utterance_ms d.speech_ms && leb silence_to_flush_ms d.silence_ms

  unfoldable pub capped : Detector V → Bool
  capped d = leb d.max_utterance_ms d.speech_ms

  -- `if paused or capped`, with what is appended to `flushed`
  unfoldable pub flush_if_due : Detector V → List Bytes × Detector V
  unfolding paused capped reset
  flush_if_due d = if paused d || capped d then (d.utterance ∷ [], reset d) else ([], d)

module _ {V : Type 0} (is_speech : V → Bytes → Bool × V) where
  -- One round of the loop of `feed`, on a frame that was cut off `leftover`.
  unfoldable pub observe : Bytes → Detector V → List Bytes × Detector V
  unfolding hear flush_if_due
  observe frame d =
      let (speech, vad) = is_speech d.vad frame in
      flush_if_due (hear speech frame (record d { vad = vad }))

  -- The loop of `feed`. Every round takes a frame off `leftover`, so its length is fuel enough.
  unfoldable pub drain : ℕ → Detector V → List Bytes × Detector V
  drain zero d = ([], d)
  drain (suc fuel) d =
      let (flushed, d') =
        observe (take frame_bytes d.leftover)
          (record d { leftover = drop frame_bytes d.leftover }) in
      let (later, d'') = drain fuel d' in
      if leb frame_bytes (length d.leftover) then (flushed ++ later, d'') else ([], d)

  unfoldable pub feed : Bytes → Detector V → List Bytes × Detector V
  unfolding drain
  feed pcm d = drain (length (d.leftover ++ pcm)) (record d { leftover = d.leftover ++ pcm })
