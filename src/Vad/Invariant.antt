-- ===== src/Vad/Invariant.antt =====
-- What `feed` of server/app/services/vad/vad.py keeps true of the detector, and what it flushes.
use corella.Prelude.{ℕ, ◌*◌, ◌%◌, ◌≤◌, ◌<◌, min, ◌≡◌, ◌⊎◌, List, arith, length, All}
use corella.Vad.{Bytes, Detector, frame_bytes, silence_to_flush_ms, init}

-- Whole frames are buffered, 32 bytes for each millisecond of speech at least; nothing is buffered
-- before speech; and no flush is due.
pub record IsValid {V : Type 0} (d : Detector V) : Type 0 where
  pub whole : length d.utterance % frame_bytes ≡ 0
  pub loud : 32 * d.speech_ms ≤ length d.utterance
  pub idle : (0 < d.speech_ms) ⊎ (length d.utterance ≡ 0)
  pub under_cap : d.speech_ms < d.max_utterance_ms
  pub no_pause : (d.speech_ms < d.min_utterance_ms) ⊎ (d.silence_ms < silence_to_flush_ms)

-- A flushed utterance is whole frames, and speech for the shorter of the two limits.
abbrev pub IsWorthy : ℕ → ℕ → Bytes → Type 0
IsWorthy min_ms max_ms u = (length u % frame_bytes ≡ 0) × (32 * min min_ms max_ms ≤ length u)

-- What the loop has done when it stops: the detector it leaves, and the utterances it flushed.
pub record Drained {V : Type 0} (d : Detector V) (r : List Bytes × Detector V) : Type 0 where
  pub valid : IsValid r.1
  pub worthy : All (IsWorthy d.min_utterance_ms d.max_utterance_ms) r.0
  pub short : length r.1.leftover < frame_bytes

-- A detector that is just made is valid, if its cap is at least a second.
pub init-IsValid :
    {V : Type 0} (vad : V) (max_seconds min_ms : ℕ)
    → 0 < max_seconds
    → IsValid (init vad max_seconds min_ms)
unfolding init
init-IsValid vad max_seconds min_ms pos = ground arith
