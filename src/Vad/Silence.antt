-- ===== src/Vad/Silence.antt =====
-- Where the cap of server/app/services/vad/vad.py does not reach: silence behind a short sound.
use corella.Prelude.{
  ℕ, zero, suc, ◌<◌, ◌≡◌, refl, Bool, false, List, [], ◌++◌, arith, length, take, drop,
  take-append-drop, append_assoc, ◌∙◌, Bool-cases, inl, inr, leb,
}
use corella.Vad.{Bytes, Detector, frame_bytes, observe, drain, feed}
use corella.Vad.Chunks.{round, leftover-round, drain_short, drain_long}

-- Speech was heard, and too little of it for either flush.
pub record IsShort {V : Type 0} (d : Detector V) : Type 0 where
  pub heard : 0 < d.speech_ms
  pub below_min : d.speech_ms < d.min_utterance_ms
  pub below_max : d.speech_ms < d.max_utterance_ms

-- `r` flushed nothing, and holds all the audio that `d` held.
pub record Hoards {V : Type 0} (d : Detector V) (r : List Bytes × Detector V) : Type 0 where
  pub flushed : r.0 ≡ []
  pub held : r.1.utterance ++ r.1.leftover ≡ d.utterance ++ d.leftover
  pub speech : r.1.speech_ms ≡ d.speech_ms
  pub least : r.1.min_utterance_ms ≡ d.min_utterance_ms
  pub most : r.1.max_utterance_ms ≡ d.max_utterance_ms

-- The section's classifier hears no speech from here on.
module _ {V : Type 0} (is_speech : V → Bytes → Bool × V)
    (quiet : (vad : V) (frame : Bytes) → (is_speech vad frame).0 ≡ false) where
  -- A frame of silence behind speech that is too short to flush is kept, and flushes nothing.
  observe-Hoards :
      (frame : Bytes) (d : Detector V)
      → IsShort d
      → ((observe is_speech frame d).0 ≡ [])
        × ((observe is_speech frame d).1.utterance ≡ d.utterance ++ frame)
        × ((observe is_speech frame d).1.speech_ms ≡ d.speech_ms)
        × ((observe is_speech frame d).1.min_utterance_ms ≡ d.min_utterance_ms)
        × ((observe is_speech frame d).1.max_utterance_ms ≡ d.max_utterance_ms)
  unfolding observe
  observe-Hoards frame d s = ground (arith, quiet d.vad frame)

  round-Hoards : (d : Detector V) → IsShort d → Hoards d (round is_speech d)
  round-Hoards d s =
      let rest : Bytes = drop frame_bytes d.leftover in
      let frame : Bytes = take frame_bytes d.leftover in
      let (flushed, held, speech, least, most) =
        observe-Hoards frame (record d { leftover = rest })
          (record { heard = s.heard; below_min = s.below_min; below_max = s.below_max }) in
      record {
        flushed = flushed;
        held = rw (
          held,
          leftover-round is_speech d,
          append_assoc,
          take-append-drop frame_bytes d.leftover,
        );
        speech = speech;
        least = least;
        most = most;
      }

  Hoards-drain :
      (d : Detector V) (r s : List Bytes × Detector V)
      → Hoards d r
      → Hoards r.1 s
      → Hoards d (r.0 ++ s.0, s.1)
  Hoards-drain d r s h k = record {
    flushed = rw h.flushed k.flushed;
    held = k.held ∙ h.held;
    speech = k.speech ∙ h.speech;
    least = k.least ∙ h.least;
    most = k.most ∙ h.most;
  }

  Hoards-IsShort :
      (d : Detector V) (r : List Bytes × Detector V) → Hoards d r → IsShort d → IsShort r.1
  Hoards-IsShort d r h s = omega (arith, h.speech, h.least, h.most)

  Hoards-refl : (d : Detector V) → Hoards d ([], d)
  Hoards-refl d = record { flushed = refl; held = refl; speech = refl; least = refl; most = refl }

  drain_none : (d : Detector V) → drain is_speech zero d ≡ ([], d)
  unfolding drain
  drain_none d = refl

  drain-Hoards : (fuel : ℕ) (d : Detector V) → IsShort d → Hoards d (drain is_speech fuel d)
  drain-Hoards zero d s = rw (drain_none d) (Hoards-refl d)
  drain-Hoards (suc fuel) d s = elim (Bool-cases (leb frame_bytes (length d.leftover))) [
    | inl h ↦ rw (drain_long is_speech fuel d h) (
        Hoards-drain d (round is_speech d) (drain is_speech fuel (round is_speech d).1)
          (round-Hoards d s)
          (drain-Hoards fuel (round is_speech d).1
            (Hoards-IsShort d (round is_speech d) (round-Hoards d s) s)))
    | inr h ↦ rw (drain_short is_speech (suc fuel) d h) (Hoards-refl d)
  ]

  -- Behind speech shorter than both limits, and while no further speech is heard, `feed` flushes
  -- nothing, however much audio it is fed: all of it stays in the detector, which holds what it held
  -- before and then the new audio.
  pub silence_hoarded :
      (pcm : Bytes) (d : Detector V)
      → IsShort d
      → ((feed is_speech pcm d).0 ≡ [])
        × ((feed is_speech pcm d).1.utterance ++ (feed is_speech pcm d).1.leftover
            ≡ d.utterance ++ d.leftover ++ pcm)
  unfolding feed
  silence_hoarded pcm d s =
      let h =
        drain-Hoards (length (d.leftover ++ pcm)) (record d { leftover = d.leftover ++ pcm })
          (record { heard = s.heard; below_min = s.below_min; below_max = s.below_max }) in
      (h.flushed, rw append_assoc h.held)
