-- ===== src/Vad/Speech.antt =====
-- `feed` of server/app/services/vad/vad.py on speech, and the end of a session.
use corella.Prelude.{
  ℕ, zero, suc, ◌<◌, ◌≡◌, refl, Bool, true, none, List, [], ◌++◌, arith, length, take, drop,
  take-append-drop, append_assoc, append-nil, ◌∙◌, concat, concat-append, sym, Bool-cases, inl, inr,
  leb,
}
use corella.Vad.{
  Bytes, Detector, frame_bytes, observe, peek_current_utterance, flush_remaining, drain, feed,
}
use corella.Vad.Chunks.{round, leftover-round, drain_short, drain_long}

-- All the audio of a call: what was flushed, the utterance in progress, and what is left over.
abbrev pub audio : {V : Type 0} → List Bytes × Detector V → Bytes
audio r = concat r.0 ++ (r.1.utterance ++ r.1.leftover)

module _ {V : Type 0} (is_speech : V → Bytes → Bool × V)
    (loud : (vad : V) (frame : Bytes) → (is_speech vad frame).0 ≡ true) where
  observe_speech :
      (frame : Bytes) (d : Detector V)
      → concat (observe is_speech frame d).0 ++ (observe is_speech frame d).1.utterance
        ≡ d.utterance ++ frame
  unfolding observe
  observe_speech frame d = ground (arith, loud d.vad frame, append-nil (d.utterance ++ frame))

  audio-round : (d : Detector V) → audio (round is_speech d) ≡ d.utterance ++ d.leftover
  audio-round d =
      let frame : Bytes = take frame_bytes d.leftover in
      let rest : Bytes = drop frame_bytes d.leftover in
      rw (
        leftover-round is_speech d,
        ← append_assoc,
        observe_speech frame (record d { leftover = rest }),
        append_assoc,
        take-append-drop frame_bytes d.leftover,
      )

  drain_none : (d : Detector V) → audio (drain is_speech zero d) ≡ d.utterance ++ d.leftover
  unfolding drain
  drain_none d = refl

  audio-drain :
      (fuel : ℕ) (d : Detector V) → audio (drain is_speech fuel d) ≡ d.utterance ++ d.leftover
  audio-drain zero d = drain_none d
  audio-drain (suc fuel) d = elim (Bool-cases (leb frame_bytes (length d.leftover))) [
    | inl h ↦
        rw
          (
            drain_long is_speech fuel d h,
            concat-append,
            append_assoc,
            audio-drain fuel (round is_speech d).1,
          )
          (audio-round d)
    | inr h ↦ rw (drain_short is_speech (suc fuel) d h)
  ]

  -- While every frame is speech `feed` loses no byte: what it flushed, the utterance in progress and
  -- what is left over are, in this order, all the audio that was held and then what it was fed.
  pub speech_kept :
      (pcm : Bytes) (d : Detector V)
      → audio (feed is_speech pcm d) ≡ d.utterance ++ d.leftover ++ pcm
  unfolding feed
  speech_kept pcm d =
      audio-drain (length (d.leftover ++ pcm)) (record d { leftover = d.leftover ++ pcm })
      ∙ sym (append_assoc d.utterance d.leftover pcm)

-- What ends a session is what a preview shows; it leaves nothing behind, so a second end finds
-- nothing, where some speech is required at all.
pub flush_remaining_once :
    {V : Type 0} (d : Detector V)
    → 0 < d.min_utterance_ms
    → ((flush_remaining d).0 ≡ peek_current_utterance d)
      × ((flush_remaining d).1.utterance ≡ [])
      × ((flush_remaining d).1.leftover ≡ d.leftover)
      × ((flush_remaining (flush_remaining d).1).0 ≡ none)
unfolding flush_remaining peek_current_utterance
flush_remaining_once d pos = ground arith
