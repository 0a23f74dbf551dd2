-- ===== src/LiveSession/Recorded.antt =====
-- What a session of server/app/ws/live_session.py records of a channel: the audio of its frames, in order.
use corella.Prelude.{
  ℕ, ◌≡◌, refl, sym, ap, ◌∙◌, Bool, true, false, not, ◌||◌, Option, none, some, List, [], ◌∷◌, ◌++◌,
  append-nil, append_assoc, ltb, if◌then◌else◌, if-elim, codes,
}
use corella.Vad.{Bytes, Detector}
use corella.LiveSession.{
  Channel, me, them, Side, Session, Settings, side, with_side, init, promote, record_chunk, route,
  on_audio, handle_on, channel_by_byte, handle_audio_frame, count_segment, finish_cycle,
  finish_preview, open_stream, close_stream,
}
use corella.LiveSession.Loop.{
  Event, received, preview_finished, stream_opened, stream_closed, segment_committed,
  cycle_finished, disconnect, bytes, text, empty, End, stopped, disconnected, crashed, Json,
  malformed, not_an_object, object, is_type, is_stop, handle_control_frame, on_text, task, run,
}
use corella.LiveSession.Frames.{
  same_channel, is_on, payload, goes_on, chunks, recording-with_side, side-promote,
  recording-schedule, side-count_segment, side-finish_cycle,
}

module _ {V : Type 0} (is_speech : V → Bytes → Bool × V) (duration_ms : ℕ → ℕ) where
  recording-route :
      (o : Option (List Bytes)) (c c' : Channel) (at : ℕ) (pcm : Bytes) (s : Session V)
      → (side c (route is_speech duration_ms o c' at pcm s)).recording ≡ (side c s).recording
  recording-route (some sent) c c' at pcm s = recording-with_side c c' _ s refl
  recording-route none me me at pcm s = refl
  recording-route none me them at pcm s = refl
  recording-route none them me at pcm s = refl
  recording-route none them them at pcm s = refl

  recording-on_audio :
      (c c' : Channel) (at : ℕ) (pcm : Bytes) (s : Session V)
      → (side c (on_audio is_speech duration_ms c' at pcm s)).recording
        ≡ (side c s).recording ++ (if same_channel c c' then (at, pcm) ∷ [] else [])
  unfolding on_audio
  recording-on_audio c c' at pcm s =
      let noted : Session V = with_side c' (record_chunk at pcm (side c' s)) s in
      recording-route (side c' (promote c' noted)).stream c c' at pcm (promote c' noted)
      ∙ ap (λ (d : Side V). d.recording) (side-promote c c' noted)
      ∙ recorded c c'
    where
      recorded :
          (c c' : Channel)
          → (side c (with_side c' (record_chunk at pcm (side c' s)) s)).recording
            ≡ (side c s).recording ++ (if same_channel c c' then (at, pcm) ∷ [] else [])
      recorded me me = refl
      recorded me them = sym (append-nil s.mine.recording)
      recorded them me = sym (append-nil s.theirs.recording)
      recorded them them = refl

  recording-frame :
      (c : Channel) (at : ℕ) (frame : Bytes) (s : Session V)
      → (side c (handle_audio_frame is_speech duration_ms at frame s)).recording
        ≡ (side c s).recording ++ payload c at frame
  unfolding handle_audio_frame
  recording-frame c at [] s = sym (append-nil (side c s).recording)
  recording-frame c at (b ∷ []) s = sym (append-nil (side c s).recording)
  recording-frame c at (b ∷ x ∷ pcm) s = on (channel_by_byte b)
    where
      on :
          (o : Option Channel)
          → (side c (handle_on is_speech duration_ms o at (x ∷ pcm) s)).recording
            ≡ (side c s).recording ++ (if is_on c o then (at, x ∷ pcm) ∷ [] else [])
      on none = sym (append-nil (side c s).recording)
      on (some c') =
          recording-schedule c c' at (on_audio is_speech duration_ms c' at (x ∷ pcm) s)
          ∙ recording-on_audio c c' at (x ∷ pcm) s

module _ {V : Type 0} (is_speech : V → Bytes → Bool × V) (duration_ms : ℕ → ℕ)
    (settings : Settings) where
  recording-task :
      (c : Channel) (event : Event) (s : Session V)
      → (side c (task is_speech duration_ms settings event s)).recording ≡ (side c s).recording
  unfolding task
  recording-task c (received at message) s = refl
  recording-task c (preview_finished c' at elapsed) s =
      if-elim (λ (r : Session V). (side c r).recording ≡ (side c s).recording)
        (ltb 0 (side c' s).decodes) (with_side c' (finish_preview at elapsed (side c' s)) s) s
        (λ e. recording-with_side c c' (finish_preview at elapsed (side c' s)) s refl) (λ e. refl)
  recording-task c (stream_opened c') s = recording-with_side c c' _ s refl
  recording-task c (stream_closed c') s = recording-with_side c c' _ s refl
  recording-task c (segment_committed at) s =
      ap (λ (d : Side V). d.recording) (side-count_segment settings c at s)
  recording-task c cycle_finished s =
      if-elim (λ (r : Session V). (side c r).recording ≡ (side c s).recording) (ltb 0 s.cycles)
        (finish_cycle s) s (λ e. ap (λ (d : Side V). d.recording) (side-finish_cycle c s))
        (λ e. refl)

  recording-control :
      (c : Channel) (json : Json) (s : Session V) → side c (handle_control_frame json s) ≡ side c s
  unfolding handle_control_frame
  recording-control c malformed s = refl
  recording-control c not_an_object s = refl
  recording-control me (object type enabled) s =
      if-elim (λ (r : Session V). r.mine ≡ s.mine)
        (not (is_type (codes "debug") type) || not s.is_admin) s _ (λ e. refl) (λ e. refl)
  recording-control them (object type enabled) s =
      if-elim (λ (r : Session V). r.theirs ≡ s.theirs)
        (not (is_type (codes "debug") type) || not s.is_admin) s _ (λ e. refl) (λ e. refl)

  abbrev pub after : List Event → Option End × Session V → Session V
  after events r = (run is_speech duration_ms settings events r).1

  -- Once the loop has ended, no audio is recorded.
  recording-ended :
      (c : Channel) (events : List Event) (e : End) (s : Session V)
      → (side c (after events (some e, s))).recording ≡ (side c s).recording
  unfolding run
  recording-ended c [] e s = refl
  recording-ended c (received at message ∷ events) e s = recording-ended c events e s
  recording-ended c (preview_finished c' at elapsed ∷ events) e s =
      recording-ended c events e
        (task is_speech duration_ms settings (preview_finished c' at elapsed) s)
      ∙ recording-task c (preview_finished c' at elapsed) s
  recording-ended c (stream_opened c' ∷ events) e s =
      recording-ended c events e (open_stream c' s) ∙ recording-task c (stream_opened c') s
  recording-ended c (stream_closed c' ∷ events) e s =
      recording-ended c events e (close_stream c' s) ∙ recording-task c (stream_closed c') s
  recording-ended c (segment_committed at ∷ events) e s =
      recording-ended c events e (count_segment settings at s)
      ∙ recording-task c (segment_committed at) s
  recording-ended c (cycle_finished ∷ events) e s =
      recording-ended c events e (task is_speech duration_ms settings cycle_finished s)
      ∙ recording-task c cycle_finished s

  later :
      (c : Channel) (events : List Event) (s : Session V) (event : Event)
      → (side c (after events (none, task is_speech duration_ms settings event s))).recording
        ≡ (side c (task is_speech duration_ms settings event s)).recording ++ chunks c events
      → (side c (after events (none, task is_speech duration_ms settings event s))).recording
        ≡ (side c s).recording ++ chunks c events
  later c events s event h = h ∙ ap (λ r. r ++ chunks c events) (recording-task c event s)

  texted :
      (c : Channel) (events : List Event) (json : Json) (s : Session V) (stop : Option Bool)
      → (side c (after events (none, handle_control_frame json s))).recording
        ≡ (side c (handle_control_frame json s)).recording ++ chunks c events
      → (side c (after events (on_text is_speech duration_ms settings stop json s))).recording
        ≡ (side c s).recording ++ (if not (goes_on stop) then [] else chunks c events)
  texted c events json s none h =
      recording-ended c events crashed s ∙ sym (append-nil (side c s).recording)
  texted c events json s (some true) h =
      recording-ended c events stopped s ∙ sym (append-nil (side c s).recording)
  texted c events json s (some false) h =
      h ∙ ap (λ (d : Side V). d.recording ++ chunks c events) (recording-control c json s)

  recording-run :
      (c : Channel) (events : List Event) (s : Session V)
      → (side c (after events (none, s))).recording ≡ (side c s).recording ++ chunks c events
  unfolding run chunks
  recording-run c [] s = sym (append-nil (side c s).recording)
  recording-run c (received at (bytes frame) ∷ events) s =
      recording-run c events (handle_audio_frame is_speech duration_ms at frame s)
      ∙ ap (λ r. r ++ chunks c events) (recording-frame is_speech duration_ms c at frame s)
      ∙ append_assoc (side c s).recording (payload c at frame) (chunks c events)
  recording-run c (received at disconnect ∷ events) s =
      recording-ended c events disconnected s ∙ sym (append-nil (side c s).recording)
  recording-run c (received at empty ∷ events) s = recording-run c events s
  recording-run c (received at (text json) ∷ events) s =
      texted c events json s (is_stop json) (recording-run c events (handle_control_frame json s))
  recording-run c (preview_finished c' at elapsed ∷ events) s =
      later c events s (preview_finished c' at elapsed) (
        recording-run c events
          (task is_speech duration_ms settings (preview_finished c' at elapsed) s))
  recording-run c (stream_opened c' ∷ events) s =
      later c events s (stream_opened c')
        (recording-run c events (task is_speech duration_ms settings (stream_opened c') s))
  recording-run c (stream_closed c' ∷ events) s =
      later c events s (stream_closed c')
        (recording-run c events (task is_speech duration_ms settings (stream_closed c') s))
  recording-run c (segment_committed at ∷ events) s =
      later c events s (segment_committed at)
        (recording-run c events (task is_speech duration_ms settings (segment_committed at) s))
  recording-run c (cycle_finished ∷ events) s =
      later c events s cycle_finished
        (recording-run c events (task is_speech duration_ms settings cycle_finished s))

  -- Whatever arrives and whatever the session's tasks do, in any order, streams that open and close
  -- included: the recording of a channel is the audio of its frames up to the end of the loop, chunk by
  -- chunk, in order, each with the time of its arrival.
  pub recording-chunks :
      (c : Channel) (is_admin has_provider : Bool) (mine theirs : Detector V) (events : List Event)
      → (side c (after events (none, init is_admin has_provider mine theirs))).recording
        ≡ chunks c events
  unfolding init
  recording-chunks me is_admin has_provider mine theirs events =
      recording-run me events (init is_admin has_provider mine theirs)
  recording-chunks them is_admin has_provider mine theirs events =
      recording-run them events (init is_admin has_provider mine theirs)
