-- ===== src/LiveSession/Loop.antt =====
-- The receive loop of `live_session_ws` in server/app/ws/live_session.py, with what the session's other
-- tasks do between two messages, as events in the order in which they happen.
use corella.Prelude.{
  ℕ, Bool, true, false, not, ◌||◌, Option, none, some, List, [], ◌∷◌, ltb, if◌then◌else◌, Text,
  codes, text_eq,
}
use corella.Vad.{Bytes}
use corella.LiveSession.{
  Channel, Session, Settings, side, with_side, open_stream, close_stream, handle_audio_frame,
  count_segment, finish_cycle, finish_preview,
}

-- What `json.loads` makes of a text: an error, a value without `get`, or an object's `type` and the truth
-- of its `enabled`.
pub data Json : Type 0 where
  malformed not_an_object : Json
  object : Option Text → Bool → Json

pub data Message : Type 0 where
  disconnect : Message
  bytes : Bytes → Message
  text : Json → Message
  -- Neither bytes nor text.
  empty : Message

-- How the loop ended; `crashed` is an exception, which is logged.
pub data End : Type 0 where
  stopped disconnected crashed : End

abbrev pub is_type : Text → Option Text → Bool
is_type wanted none = false
is_type wanted (some t) = text_eq t wanted

-- `_is_stop`; `none` is the AttributeError.
unfoldable pub is_stop : Json → Option Bool
is_stop malformed = some false
is_stop not_an_object = none
is_stop (object type enabled) = some (is_type (codes "stop") type)

-- What happens to a session.
pub data Event : Type 0 where
  received : ℕ → Message → Event
  -- A decode of a preview ends after a time.
  preview_finished : Channel → ℕ → ℕ → Event
  stream_opened stream_closed : Channel → Event
  segment_committed : ℕ → Event
  cycle_finished : Event

module _ {V : Type 0} where
  -- `_handle_control_frame`; the message is no stop, so it is an object or malformed.
  unfoldable pub handle_control_frame : Json → Session V → Session V
  handle_control_frame malformed s = s
  handle_control_frame not_an_object s = s
  handle_control_frame (object type enabled) s =
      if not (is_type (codes "debug") type) || not s.is_admin
      then s
      else record s { debug_enabled = enabled }

module _ {V : Type 0} (is_speech : V → Bytes → Bool × V) (duration_ms : ℕ → ℕ)
    (settings : Settings) where
  abbrev pub on_text : Option Bool → Json → Session V → Option End × Session V
  on_text none json s = (some crashed, s)
  on_text (some true) json s = (some stopped, s)
  on_text (some false) json s = (none, handle_control_frame json s)

  -- One round of the loop.
  unfoldable pub receive : ℕ → Message → Session V → Option End × Session V
  unfolding is_stop handle_control_frame handle_audio_frame
  receive at disconnect s = (some disconnected, s)
  receive at (bytes frame) s = (none, handle_audio_frame is_speech duration_ms at frame s)
  receive at (text json) s = on_text (is_stop json) json s
  receive at empty s = (none, s)

  -- A decode can end only where one runs, and a cycle too.
  unfoldable pub task : Event → Session V → Session V
  unfolding finish_preview count_segment finish_cycle
  task (received at message) s = s
  task (preview_finished c at elapsed) s =
      if ltb 0 (side c s).decodes then with_side c (finish_preview at elapsed (side c s)) s else s
  task (stream_opened c) s = open_stream c s
  task (stream_closed c) s = close_stream c s
  task (segment_committed at) s = count_segment settings at s
  task cycle_finished s = if ltb 0 s.cycles then finish_cycle s else s

  -- One event of a session that may have ended. What arrives after the end is not read.
  unfoldable pub step : Event → Option End × Session V → Option End × Session V
  unfolding receive task
  step (received at message) (none, s) = receive at message s
  step (received at message) (some e, s) = (some e, s)
  step event (ended, s) = (ended, task event s)

  unfoldable pub run : List Event → Option End × Session V → Option End × Session V
  unfolding step
  run [] r = r
  run (event ∷ events) r = run events (step event r)
