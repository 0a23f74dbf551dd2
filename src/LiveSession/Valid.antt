-- ===== src/LiveSession/Valid.antt =====
-- What holds of a session after any events: what its flags say is what runs.
use corella.Prelude.{
  ℕ, ◌≡◌, Bool, true, false, not, ◌&&◌, Option, none, some, List, [], ◌∷◌, ltb, if◌then◌else◌,
  if-elim, arith, Bool-cases, inl, inr,
}
use corella.Vad.{Bytes, Detector}
use corella.LiveSession.{
  Utterance, Channel, me, them, Side, Session, Settings, side, with_side, init, promote, route,
  on_audio, maybe_schedule_preview, handle_on, channel_by_byte, handle_audio_frame, count_segment,
  finish_cycle, finish_preview,
}
use corella.LiveSession.Loop.{
  Event, received, preview_finished, stream_opened, stream_closed, segment_committed,
  cycle_finished, Message, disconnect, bytes, text, empty, End, Json, malformed, not_an_object,
  object, is_stop, handle_control_frame, on_text, receive, task, step, run,
}

abbrev one_if : Bool → ℕ
one_if b = if b then 1 else 0

module _ {V : Type 0} where
  -- A side decodes one preview where it says so, and none otherwise.
  abbrev pub IsPaced : Side V → Type 0
  IsPaced d = d.decodes ≡ (if d.preview_in_flight then 1 else 0)

  -- Only an administrator's session has debugging on; each channel has a preview in work, and the session
  -- a copilot cycle, exactly where its flag is set; the capture is promoted at most once.
  pub record IsValid (s : Session V) : Type 0 where
    pub guarded : (s.debug_enabled && not s.is_admin) ≡ false
    pub mine_paced : IsPaced s.mine
    pub theirs_paced : IsPaced s.theirs
    pub cycled : s.cycles ≡ (if s.copilot_running then 1 else 0)
    pub promoted : s.promotions ≡ (if s.capture_promoted then 1 else 0)

  init-IsValid : (a p : Bool) (m t : Detector V) → IsValid (init a p m t)
  unfolding init
  init-IsValid a p m t = ground arith

  with_side-IsValid :
      (c : Channel) (d : Side V) (s : Session V) → IsPaced d → IsValid s → IsValid (with_side c d s)
  with_side-IsValid me d s p v = ground arith
  with_side-IsValid them d s p v = ground arith

  side-IsPaced : (c : Channel) (s : Session V) → IsValid s → IsPaced (side c s)
  side-IsPaced me s v = v.mine_paced
  side-IsPaced them s v = v.theirs_paced

  promote-IsValid : (c : Channel) (s : Session V) → IsValid s → IsValid (promote c s)
  promote-IsValid me s v = v
  promote-IsValid them s v = ground arith

  maybe_schedule_preview-IsPaced :
      (c : Channel) (at : ℕ) (d : Side V) → IsPaced d → IsPaced (maybe_schedule_preview c at d).1
  unfolding maybe_schedule_preview
  maybe_schedule_preview-IsPaced c at d p = ground arith

  finish_preview-IsPaced :
      (at elapsed : ℕ) (d : Side V) → IsPaced d → IsPaced (finish_preview at elapsed d)
  unfolding finish_preview
  finish_preview-IsPaced at elapsed d p = ground arith

  count_segment-IsValid :
      (settings : Settings) (at : ℕ) (s : Session V)
      → IsValid s
      → IsValid (count_segment settings at s)
  unfolding count_segment
  count_segment-IsValid settings at s v = ground arith

  finish_cycle-IsValid : (s : Session V) → IsValid s → IsValid (finish_cycle s)
  unfolding finish_cycle
  finish_cycle-IsValid s v = ground arith

  handle_control_frame-IsValid :
      (json : Json) (s : Session V) → IsValid s → IsValid (handle_control_frame json s)
  unfolding handle_control_frame
  handle_control_frame-IsValid malformed s v = v
  handle_control_frame-IsValid not_an_object s v = v
  handle_control_frame-IsValid (object type enabled) s v = elim (Bool-cases s.is_admin) [
    | inl admin ↦ ground arith
    | inr other ↦ ground arith
  ]

module _ {V : Type 0} (is_speech : V → Bytes → Bool × V) (duration_ms : ℕ → ℕ) where
  queue-IsValid :
      (q : List Utterance) (s : Session V) → IsValid s → IsValid (record s { queue = q })
  queue-IsValid q s v = ground arith

  route-IsValid :
      (o : Option (List Bytes)) (c : Channel) (at : ℕ) (pcm : Bytes) (s : Session V)
      → IsValid s
      → IsValid (route is_speech duration_ms o c at pcm s)
  route-IsValid (some sent) c at pcm s v = with_side-IsValid c _ s (side-IsPaced c s v) v
  route-IsValid none c at pcm s v =
      with_side-IsValid c _ _ (side-IsPaced c s v) (queue-IsValid _ s v)

  handle_audio_frame-IsValid :
      (at : ℕ) (frame : Bytes) (s : Session V)
      → IsValid s
      → IsValid (handle_audio_frame is_speech duration_ms at frame s)
  unfolding handle_audio_frame
  handle_audio_frame-IsValid at [] s v = v
  handle_audio_frame-IsValid at (b ∷ []) s v = v
  handle_audio_frame-IsValid at (b ∷ x ∷ pcm) s v = on (channel_by_byte b)
    where
      on : (o : Option Channel) → IsValid (handle_on is_speech duration_ms o at (x ∷ pcm) s)
      on none = v
      on (some c) =
          let s' : Session V = on_audio is_speech duration_ms c at (x ∷ pcm) s in
          let v' : IsValid s' =
            route-IsValid _ c at (x ∷ pcm) _
              (promote-IsValid c _ (with_side-IsValid c _ s (side-IsPaced c s v) v)) in
          with_side-IsValid c _ s'
            (maybe_schedule_preview-IsPaced c at (side c s') (side-IsPaced c s' v')) v'

module _ {V : Type 0} (is_speech : V → Bytes → Bool × V) (duration_ms : ℕ → ℕ)
    (settings : Settings) where
  receive-IsValid :
      (at : ℕ) (message : Message) (s : Session V)
      → IsValid s
      → IsValid (receive is_speech duration_ms settings at message s).1
  unfolding receive
  receive-IsValid at disconnect s v = v
  receive-IsValid at empty s v = v
  receive-IsValid at (bytes frame) s v =
      handle_audio_frame-IsValid is_speech duration_ms at frame s v
  receive-IsValid at (text json) s v = on (is_stop json)
    where
      on : (o : Option Bool) → IsValid (on_text is_speech duration_ms settings o json s).1
      on none = v
      on (some true) = v
      on (some false) = handle_control_frame-IsValid json s v

  task-IsValid :
      (event : Event) (s : Session V)
      → IsValid s
      → IsValid (task is_speech duration_ms settings event s)
  unfolding task
  task-IsValid (received at message) s v = v
  task-IsValid (preview_finished c at elapsed) s v =
      if-elim IsValid (ltb 0 (side c s).decodes)
        (with_side c (finish_preview at elapsed (side c s)) s) s
        (λ e.
          with_side-IsValid c _ s
            (finish_preview-IsPaced at elapsed (side c s) (side-IsPaced c s v)) v)
        (λ e. v)
  task-IsValid (stream_opened c) s v = with_side-IsValid c _ s (side-IsPaced c s v) v
  task-IsValid (stream_closed c) s v = with_side-IsValid c _ s (side-IsPaced c s v) v
  task-IsValid (segment_committed at) s v = count_segment-IsValid settings at s v
  task-IsValid cycle_finished s v =
      if-elim IsValid (ltb 0 s.cycles) (finish_cycle s) s (λ e. finish_cycle-IsValid s v) (λ e. v)

  step-IsValid :
      (event : Event) (r : Option End × Session V)
      → IsValid r.1
      → IsValid (step is_speech duration_ms settings event r).1
  unfolding step
  step-IsValid (received at message) (none, s) v = receive-IsValid at message s v
  step-IsValid (received at message) (some e, s) v = v
  step-IsValid (preview_finished c at elapsed) (e, s) v =
      task-IsValid (preview_finished c at elapsed) s v
  step-IsValid (stream_opened c) (e, s) v = task-IsValid (stream_opened c) s v
  step-IsValid (stream_closed c) (e, s) v = task-IsValid (stream_closed c) s v
  step-IsValid (segment_committed at) (e, s) v = task-IsValid (segment_committed at) s v
  step-IsValid cycle_finished (e, s) v = task-IsValid cycle_finished s v

  run-keeps :
      (events : List Event) (r : Option End × Session V)
      → IsValid r.1
      → IsValid (run is_speech duration_ms settings events r).1
  unfolding run
  run-keeps [] r v = v
  run-keeps (event ∷ events) r v =
      run-keeps events (step is_speech duration_ms settings event r) (step-IsValid event r v)

  -- After any messages and ends of tasks, in any order, a session from the start is valid: debugging is
  -- on only in an administrator's session, each channel has one preview in work where its flag is set and
  -- none otherwise, one copilot cycle runs where its flag is set and none otherwise, and the capture was
  -- promoted once or not at all, as its flag says.
  pub session-IsValid :
      (is_admin has_provider : Bool) (mine theirs : Detector V) (events : List Event)
      → IsValid
          (run is_speech duration_ms settings events
            (none, init is_admin has_provider mine theirs)).1
  session-IsValid is_admin has_provider mine theirs events =
      run-keeps events (none, init is_admin has_provider mine theirs)
        (init-IsValid is_admin has_provider mine theirs)
