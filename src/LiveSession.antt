-- ===== src/LiveSession.antt =====
-- The state of a live recording, `LiveSession` of server/app/ws/live_session.py, and what its handlers
-- do to it. Times are milliseconds since the session began. A handler is given one reading of the clock
-- and one classifier for both detectors; `duration_ms` is `_duration_ms`, which divides floats, of the
-- number of bytes. What is sent to the client is left out, and so are the events for debugging.
pub mod Loop
pub mod Valid
pub mod Frames
pub mod Recorded
pub mod Heard
pub mod Listening
pub mod Local
pub mod Finish
pub mod Audio
pub mod Connect
pub mod Gate
pub mod Rest
mod Tests
mod AudioTests
mod GateTests
use corella.Prelude.{
  ℕ, zero, suc, ◌+◌, ◌-◌, ◌*◌, max, Bool, true, false, not, ◌&&◌, ◌||◌, Option, none, some, List,
  [], ◌∷◌, ◌++◌, ◌==◌, ltb, leb, if◌then◌else◌, is_some, length, map, nonempty,
}
use corella.Vad.{Detector, Bytes, feed, peek_current_utterance, flush_remaining}

pub data Channel : Type 0 where
  me them : Channel

-- `_CHANNEL_BY_BYTE`
abbrev pub channel_by_byte : ℕ → Option Channel
channel_by_byte b = if b == 0 then some me else if b == 1 then some them else none

pub record Utterance : Type 0 where
  pub channel : Channel
  pub pcm : Bytes
  pub start_ms : ℕ
  pub end_ms : ℕ

-- What the session keeps for a channel. `stream` has the chunks that were given to a healthy Deepgram
-- stream; `decodes` counts the previews that are being decoded.
pub record Side (V : Type 0) : Type 0 where
  pub detector : Detector V
  pub recording : List (ℕ × Bytes)
  pub stream : Option (List Bytes)
  pub next_preview_at : ℕ
  pub preview_in_flight : Bool
  pub decodes : ℕ

-- `promotions` counts the starts of `_promote_capture_to_meeting_tab`, `cycles` the copilot cycles that
-- run.
pub record Session (V : Type 0) : Type 0 where
  pub is_admin : Bool
  pub debug_enabled : Bool
  pub has_provider : Bool
  pub mine : Side V
  pub theirs : Side V
  pub queue : List Utterance
  pub capture_promoted : Bool
  pub promotions : ℕ
  pub segments_since_cycle : ℕ
  pub last_cycle_at : ℕ
  pub copilot_running : Bool
  pub cycles : ℕ

pub record Settings : Type 0 where
  pub copilot_trigger_segments : ℕ
  pub copilot_trigger_ms : ℕ

-- `_PREVIEW_BASE_SECONDS`
abbrev pub preview_base_ms : ℕ
preview_base_ms = 1000

module _ {V : Type 0} where
  abbrev pub side : Channel → Session V → Side V
  side me s = s.mine
  side them s = s.theirs

  abbrev pub with_side : Channel → Side V → Session V → Session V
  with_side me d s = record s { mine = d }
  with_side them d s = record s { theirs = d }

  abbrev pub new_side : Detector V → Side V
  new_side detector = record {
    detector = detector;
    recording = [];
    stream = none;
    next_preview_at = 0;
    preview_in_flight = false;
    decodes = 0;
  }

  -- `__init__`
  unfoldable pub init : Bool → Bool → Detector V → Detector V → Session V
  init is_admin has_provider mine theirs = record {
    is_admin = is_admin;
    debug_enabled = false;
    has_provider = has_provider;
    mine = new_side mine;
    theirs = new_side theirs;
    queue = [];
    capture_promoted = false;
    promotions = 0;
    segments_since_cycle = 0;
    last_cycle_at = 0;
    copilot_running = false;
    cycles = 0;
  }

  -- First them-channel audio.
  abbrev pub promote : Channel → Session V → Session V
  promote me s = s
  promote them s =
      if s.capture_promoted
      then s
      else record s { capture_promoted = true; promotions = s.promotions + 1 }

  abbrev pub record_chunk : ℕ → Bytes → Side V → Side V
  record_chunk at pcm d = record d { recording = d.recording ++ (at, pcm) ∷ [] }

  -- `_open_deepgram_stream` where it connects, and `on_closed`.
  abbrev pub open_stream : Channel → Session V → Session V
  open_stream c s = with_side c (record (side c s) { stream = some [] }) s

  abbrev pub close_stream : Channel → Session V → Session V
  close_stream c s = with_side c (record (side c s) { stream = none }) s

  unfoldable pub maybe_schedule_preview : Channel → ℕ → Side V → Option Bytes × Side V
  unfolding peek_current_utterance
  maybe_schedule_preview c at d =
      if is_some d.stream || d.preview_in_flight || ltb at d.next_preview_at
      then (none, d)
      else elim (peek_current_utterance d.detector) [
        | none ↦ (none, d)
        | some pending ↦
            (some pending, record d { preview_in_flight = true; decodes = d.decodes + 1 })
      ]

  abbrev pub schedule : Channel → ℕ → Session V → Session V
  schedule c at s = with_side c (maybe_schedule_preview c at (side c s)).1 s

  -- The `finally` of `_run_preview_decode`, which took `elapsed`.
  unfoldable pub finish_preview : ℕ → ℕ → Side V → Side V
  finish_preview at elapsed d = record d {
    next_preview_at = at + max preview_base_ms (elapsed * 2);
    preview_in_flight = false;
    decodes = d.decodes - 1;
  }

  unfoldable pub maybe_trigger_copilot : Settings → ℕ → Session V → Session V
  maybe_trigger_copilot settings at s =
      if not s.has_provider || s.copilot_running
      then s
      else if ltb s.segments_since_cycle settings.copilot_trigger_segments
          && ltb (at - s.last_cycle_at) settings.copilot_trigger_ms
      then s
      else record s {
        segments_since_cycle = 0;
        last_cycle_at = at;
        copilot_running = true;
        cycles = s.cycles + 1;
      }

  -- The end of `_commit_segment`.
  unfoldable pub count_segment : Settings → ℕ → Session V → Session V
  unfolding maybe_trigger_copilot
  count_segment settings at s =
      maybe_trigger_copilot settings at
        (record s { segments_since_cycle = s.segments_since_cycle + 1 })

  -- The `finally` of `_run_copilot_and_send`.
  unfoldable pub finish_cycle : Session V → Session V
  finish_cycle s = record s { copilot_running = false; cycles = s.cycles - 1 }

abbrev pub utterance : (ℕ → ℕ) → Channel → ℕ → Bytes → Utterance
utterance duration_ms c at pcm = record {
  channel = c;
  pcm = pcm;
  start_ms = at - duration_ms (length pcm);
  end_ms = at;
}

module _ {V : Type 0} (is_speech : V → Bytes → Bool × V) (duration_ms : ℕ → ℕ) where
  -- Where the audio goes: to the stream, or through the detector into the queue.
  abbrev pub route : Option (List Bytes) → Channel → ℕ → Bytes → Session V → Session V
  route (some sent) c at pcm s =
      with_side c (record (side c s) { stream = some (sent ++ pcm ∷ []) }) s
  route none c at pcm s =
      let (flushed, detector) = feed is_speech pcm (side c s).detector in
      with_side c (record (side c s) { detector = detector })
        (record s { queue = s.queue ++ map (utterance duration_ms c at) flushed })

  unfoldable pub on_audio : Channel → ℕ → Bytes → Session V → Session V
  unfolding feed
  on_audio c at pcm s =
      let s' = promote c (with_side c (record_chunk at pcm (side c s)) s) in
      route (side c s').stream c at pcm s'

  abbrev pub handle_on : Option Channel → ℕ → Bytes → Session V → Session V
  handle_on none at pcm s = s
  handle_on (some c) at pcm s = schedule c at (on_audio c at pcm s)

  -- `_handle_audio_frame`: the first byte is the channel.
  unfoldable pub handle_audio_frame : ℕ → Bytes → Session V → Session V
  unfolding on_audio maybe_schedule_preview
  handle_audio_frame at [] s = s
  handle_audio_frame at (b ∷ []) s = s
  handle_audio_frame at (b ∷ c ∷ pcm) s = handle_on (channel_by_byte b) at (c ∷ pcm) s

  abbrev pub enqueue_leftover : Channel → ℕ → Option Bytes × Detector V → Session V → Session V
  enqueue_leftover c at (none, detector) s =
      with_side c (record (side c s) { detector = detector }) s
  enqueue_leftover c at (some leftover, detector) s =
      with_side c (record (side c s) { detector = detector })
        (if nonempty leftover
          then record s { queue = s.queue ++ utterance duration_ms c at leftover ∷ [] }
          else s)

  unfoldable pub enqueue_leftovers : ℕ → Session V → Session V
  unfolding flush_remaining
  enqueue_leftovers at s =
      let s' = enqueue_leftover me at (flush_remaining s.mine.detector) s in
      enqueue_leftover them at (flush_remaining s'.theirs.detector) s'
