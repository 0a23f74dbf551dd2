-- ===== src/LiveSession/Local.antt =====
-- A channel of server/app/ws/live_session.py that stays on the local detector, through a whole session.
use mathlib.Core.Path.{subst}
use corella.Prelude.{
  ℕ, ◌≡◌, refl, sym, ap, ◌∙◌, Bool, true, false, not, Option, none, some, List, [], ◌∷◌, ◌++◌,
  append-nil, append_assoc, ltb, if◌then◌else◌, if-elim, All, arith,
}
use corella.Vad.{Bytes, Detector, peek_current_utterance, feed}
use corella.LiveSession.{
  Channel, me, them, Side, Session, Settings, side, with_side, init, handle_audio_frame,
  count_segment, finish_cycle, finish_preview,
}
use corella.LiveSession.Loop.{
  Event, received, preview_finished, stream_opened, stream_closed, segment_committed,
  cycle_finished, disconnect, bytes, text, empty, End, stopped, disconnected, crashed, Json,
  is_stop, handle_control_frame, on_text, task, run,
}
use corella.LiveSession.Frames.{payload, goes_on, chunks, side-count_segment, side-finish_cycle}
use corella.LiveSession.Recorded.{after}
use corella.Vad
use corella.LiveSession.Heard.{pcms, sound, opens, Hears, Hears-same}
use corella.LiveSession.Listening.{Hears-frame, Hears-control}

sound-append : (a b : List (ℕ × Bytes)) → sound (a ++ b) ≡ sound a ++ sound b
sound-append [] b = refl
sound-append ((at, pcm) ∷ a) b =
    ap (λ r. pcm ++ r) (sound-append a b) ∙ sym (append_assoc pcm (sound a) (sound b))

module _ {V : Type 0} (is_speech : V → Bytes → Bool × V) (duration_ms : ℕ → ℕ) (settings : Settings)
    (d : Detector V) where
  -- A change of a side that keeps its stream and its detector.
  Hears-with_side :
      (c c' : Channel) (heard : Bytes) (e : Side V) (s : Session V)
      → e.stream ≡ (side c' s).stream
      → e.detector ≡ (side c' s).detector
      → Hears is_speech duration_ms d c heard s
      → Hears is_speech duration_ms d c heard (with_side c' e s)
  Hears-with_side me me heard e s p q h = (p ∙ h.0, h.1, q ∙ h.2)
  Hears-with_side me them heard e s p q h = h
  Hears-with_side them me heard e s p q h = h
  Hears-with_side them them heard e s p q h = (p ∙ h.0, h.1, q ∙ h.2)

  queue-count_segment : (at : ℕ) (s : Session V) → (count_segment settings at s).queue ≡ s.queue
  unfolding count_segment
  queue-count_segment at s = ground arith

  queue-finish_cycle : (s : Session V) → (finish_cycle s).queue ≡ s.queue
  unfolding finish_cycle
  queue-finish_cycle s = refl

  Hears-task :
      (c : Channel) (heard : Bytes) (event : Event) (s : Session V)
      → opens c event ≡ false
      → Hears is_speech duration_ms d c heard s
      → Hears is_speech duration_ms d c heard (task is_speech duration_ms settings event s)
  unfolding task finish_preview
  Hears-task c heard (received at message) s o h = h
  Hears-task c heard (preview_finished c' at elapsed) s o h =
      if-elim (Hears is_speech duration_ms d c heard) (ltb 0 (side c' s).decodes)
        (with_side c' (finish_preview at elapsed (side c' s)) s) s
        (λ e. Hears-with_side c c' heard (finish_preview at elapsed (side c' s)) s refl refl h)
        (λ e. h)
  Hears-task me heard (stream_opened me) s o h = cc
  Hears-task them heard (stream_opened them) s o h = cc
  Hears-task me heard (stream_opened them) s o h = h
  Hears-task them heard (stream_opened me) s o h = h
  Hears-task me heard (stream_closed me) s o h = (refl, h.1, h.2)
  Hears-task them heard (stream_closed them) s o h = (refl, h.1, h.2)
  Hears-task me heard (stream_closed them) s o h = h
  Hears-task them heard (stream_closed me) s o h = h
  Hears-task c heard (segment_committed at) s o h =
      let kept = side-count_segment settings c at s in
      Hears-same is_speech duration_ms d c heard s (count_segment settings at s)
        (ap (λ (e : Side V). e.stream) kept) (queue-count_segment at s)
        (ap (λ (e : Side V). e.detector) kept) h
  Hears-task c heard cycle_finished s o h =
      let kept = side-finish_cycle c s in
      if-elim (Hears is_speech duration_ms d c heard) (ltb 0 s.cycles) (finish_cycle s) s
        (λ e.
          Hears-same is_speech duration_ms d c heard s (finish_cycle s)
            (ap (λ (e : Side V). e.stream) kept) (queue-finish_cycle s)
            (ap (λ (e : Side V). e.detector) kept) h)
        (λ e. h)

  Hears-ended :
      (c : Channel) (heard : Bytes) (events : List Event) (e : End) (s : Session V)
      → All (λ event. opens c event ≡ false) events
      → Hears is_speech duration_ms d c heard s
      → Hears is_speech duration_ms d c heard
          (after is_speech duration_ms settings events (some e, s))
  unfolding run
  Hears-ended c heard [] e s o h = h
  Hears-ended c heard (received at message ∷ events) e s o h = Hears-ended c heard events e s o.1 h
  Hears-ended c heard (preview_finished c' at elapsed ∷ events) e s o h =
      Hears-ended c heard events e _ o.1
        (Hears-task c heard (preview_finished c' at elapsed) s o.0 h)
  Hears-ended c heard (stream_opened c' ∷ events) e s o h =
      Hears-ended c heard events e _ o.1 (Hears-task c heard (stream_opened c') s o.0 h)
  Hears-ended c heard (stream_closed c' ∷ events) e s o h =
      Hears-ended c heard events e _ o.1 (Hears-task c heard (stream_closed c') s o.0 h)
  Hears-ended c heard (segment_committed at ∷ events) e s o h =
      Hears-ended c heard events e _ o.1 (Hears-task c heard (segment_committed at) s o.0 h)
  Hears-ended c heard (cycle_finished ∷ events) e s o h =
      Hears-ended c heard events e _ o.1 (Hears-task c heard cycle_finished s o.0 h)

  silent :
      (c : Channel) (heard : Bytes) (s : Session V)
      → Hears is_speech duration_ms d c heard s
      → Hears is_speech duration_ms d c (heard ++ []) s
  silent c heard s h = subst (λ b. Hears is_speech duration_ms d c b s) (sym (append-nil heard)) h

  texted :
      (c : Channel) (heard : Bytes) (json : Json) (events : List Event) (s : Session V)
      → All (λ event. opens c event ≡ false) events
      → Hears is_speech duration_ms d c heard s
      → (stop : Option Bool)
      → Hears is_speech duration_ms d c
          (heard ++ sound (chunks c events))
          (after is_speech duration_ms settings events (none, handle_control_frame json s))
      → Hears is_speech duration_ms d c
          (heard ++ sound (if not (goes_on stop) then [] else chunks c events))
          (after is_speech duration_ms settings events
            (on_text is_speech duration_ms settings stop json s))
  texted c heard json events s o h none more =
      silent c heard _ (Hears-ended c heard events crashed s o h)
  texted c heard json events s o h (some true) more =
      silent c heard _ (Hears-ended c heard events stopped s o h)
  texted c heard json events s o h (some false) more = more

  Hears-run :
      (c : Channel) (heard : Bytes) (events : List Event) (s : Session V)
      → All (λ event. opens c event ≡ false) events
      → Hears is_speech duration_ms d c heard s
      → Hears is_speech duration_ms d c
          (heard ++ sound (chunks c events))
          (after is_speech duration_ms settings events (none, s))
  unfolding run chunks
  Hears-run c heard [] s o h = silent c heard s h
  Hears-run c heard (received at (bytes frame) ∷ events) s o h =
      let s' : Session V = handle_audio_frame is_speech duration_ms at frame s in
      subst
        (λ b.
          Hears is_speech duration_ms d c b
            (after is_speech duration_ms settings events (none, s')))
        (append_assoc heard (sound (payload c at frame)) (sound (chunks c events))
          ∙ ap (λ r. heard ++ r) (sym (sound-append (payload c at frame) (chunks c events))))
        (Hears-run c (heard ++ sound (payload c at frame)) events s' o.1
          (Hears-frame is_speech duration_ms d c heard at frame s h))
  Hears-run c heard (received at disconnect ∷ events) s o h =
      silent c heard _ (Hears-ended c heard events disconnected s o.1 h)
  Hears-run c heard (received at empty ∷ events) s o h = Hears-run c heard events s o.1 h
  Hears-run c heard (received at (text json) ∷ events) s o h =
      texted c heard json events s o.1 h (is_stop json) (
        Hears-run c heard events (handle_control_frame json s) o.1
          (Hears-control is_speech duration_ms d c heard json s h))
  Hears-run c heard (preview_finished c' at elapsed ∷ events) s o h =
      Hears-run c heard events _ o.1 (Hears-task c heard (preview_finished c' at elapsed) s o.0 h)
  Hears-run c heard (stream_opened c' ∷ events) s o h =
      Hears-run c heard events _ o.1 (Hears-task c heard (stream_opened c') s o.0 h)
  Hears-run c heard (stream_closed c' ∷ events) s o h =
      Hears-run c heard events _ o.1 (Hears-task c heard (stream_closed c') s o.0 h)
  Hears-run c heard (segment_committed at ∷ events) s o h =
      Hears-run c heard events _ o.1 (Hears-task c heard (segment_committed at) s o.0 h)
  Hears-run c heard (cycle_finished ∷ events) s o h =
      Hears-run c heard events _ o.1 (Hears-task c heard cycle_finished s o.0 h)

-- A channel that is never given a stream, in a session from the start, with any messages and ends of tasks
-- in any order: the utterances that were put into the queue for it are those that its detector flushes
-- when it is fed, at once, all the audio that arrived for the channel before the loop ended. How the audio
-- was cut into frames, and what the other channel sent, changes nothing.
pub queue-feed :
    {V : Type 0} (is_speech : V → Bytes → Bool × V) (duration_ms : ℕ → ℕ) (settings : Settings)
    (c : Channel) (is_admin has_provider : Bool) (vad : V)
    (max_utterance_seconds min_utterance_ms : ℕ) (events : List Event)
    → All (λ event. opens c event ≡ false) events
    → let detector : Detector V = Vad.init vad max_utterance_seconds min_utterance_ms in
      pcms c
        (after is_speech duration_ms settings events
          (none, init is_admin has_provider detector detector)).queue
      ≡ (feed is_speech (sound (chunks c events)) detector).0
unfolding init Vad.init feed
queue-feed is_speech duration_ms settings me is_admin has_provider vad max_utterance_seconds
      min_utterance_ms events o =
    (Hears-run is_speech duration_ms settings (Vad.init vad max_utterance_seconds min_utterance_ms)
      me [] events _ o (refl, refl, refl)).1
queue-feed is_speech duration_ms settings them is_admin has_provider vad max_utterance_seconds
      min_utterance_ms events o =
    (Hears-run is_speech duration_ms settings (Vad.init vad max_utterance_seconds min_utterance_ms)
      them [] events _ o (refl, refl, refl)).1
