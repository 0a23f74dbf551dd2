-- ===== src/LiveSession/Finish.antt =====
-- The whole of `live_session_ws` in server/app/ws/live_session.py from the lock on: what opens the session,
-- the receive loop, and the `finally` with the finalization that it leaves to a task. Where something that
-- the code calls may raise, `Faults` says whether it does.
use corella.Prelude.{ℕ, Bool, true, false, not, Option, none, some, List, [], ◌∷◌, if◌then◌else◌}
use corella.Vad.{Bytes}
use corella.Mixing.{mix_channel_recordings}
use corella.LiveSession.{Session, Settings, enqueue_leftovers}
use corella.LiveSession.Loop.{Event, run}

-- `MeetingStatus`
pub data Status : Type 0 where
  recording processing ready failed : Status

-- What the handler changes of the row; `audio` is the file at `audio_path`.
pub record Row : Type 0 where
  pub status : Status
  pub audio : Option Bytes
  pub processing_error : Bool

-- What outlives the connection: the row, if it is there, and the tasks. `released` says whether the
-- handler has cleared its lock.
pub record Server : Type 0 where
  pub meeting : Option Row
  pub renewing : Bool
  pub released : Bool

-- `setup_raises`: a query, the warm-up or a row between the lock and the tasks; `ready_raises`: the sending
-- of "ready"; `mark_raises`: the database in `_mark_processing`; `release_raises`: Redis; `store_raises`:
-- the disk or the commit in the `try` of `_finalize`; `lookup_raises` and `recover_raises`: the database
-- before that `try` and in its `except`.
pub record Faults : Type 0 where
  pub setup_raises : Bool
  pub ready_raises : Bool
  pub mark_raises : Bool
  pub release_raises : Bool
  pub lookup_raises : Bool
  pub store_raises : Bool
  pub recover_raises : Bool

abbrev pub is_recording : Status → Bool
is_recording recording = true
is_recording _ = false

-- `_mark_processing`
unfoldable pub mark_processing : Option Row → Option Row
mark_processing none = none
mark_processing (some row) =
    some (if is_recording row.status then record row { status = processing } else row)

abbrev pub stored : Bytes → Row → Row
stored [] row = record row { status = ready; processing_error = false }
stored (b ∷ pcm) row = record row {
  status = ready;
  audio = some (b ∷ pcm);
  processing_error = false;
}

-- `_finalize`, with what mixing gives. What raises outside of the `try`, the mixing too, is logged by the
-- caller, and the row stays as it is.
unfoldable pub finalize : Faults → Option Bytes → Option Row → Option Row
finalize faults none meeting = meeting
finalize faults (some mixed) none = none
finalize faults (some mixed) (some row) =
    if faults.lookup_raises
    then some row
    else if not faults.store_raises
    then some (stored mixed row)
    else if faults.recover_raises
    then some row
    else some (record row { status = failed; processing_error = true })

-- The `finally`. An exception of `_mark_processing` leaves it, before the tasks are cancelled and the lock
-- is released.
unfoldable pub conclude : Faults → Option Bytes → Server → Server
unfolding mark_processing finalize
conclude faults mixed server = if faults.mark_raises then server else record server {
  meeting = finalize faults mixed (mark_processing server.meeting);
  renewing = false;
  released = not faults.release_raises;
}

-- The handler, with the track that is mixed from its session.
unfoldable pub serve : Faults → Option Bytes → Server → Server
unfolding conclude
serve faults mixed server =
    if faults.setup_raises
    then server
    else if faults.ready_raises
    then record server { renewing = true }
    else conclude faults mixed (record server { renewing = true })

-- Where the handler has the lock, before the setup.
abbrev pub locked : Row → Server
locked row = record { meeting = some row; renewing = false; released = false }

-- `self.recordings`, whose values are in this order.
abbrev pub recordings : {V : Type 0} → Session V → List (List (ℕ × Bytes))
recordings s = s.mine.recording ∷ s.theirs.recording ∷ []

module _ {V : Type 0} (is_speech : V → Bytes → Bool × V) (duration_ms sample_at : ℕ → ℕ)
    (settings : Settings) where
  -- The session with what happens to it, and its track. `at` is the time of the end.
  unfoldable pub mixed_track : ℕ → Session V → List Event → Option Bytes
  unfolding run enqueue_leftovers mix_channel_recordings
  mixed_track at s events = mix_channel_recordings duration_ms sample_at (
      recordings (
        enqueue_leftovers is_speech duration_ms at
          (run is_speech duration_ms settings events (none, s)).1))

  unfoldable pub live_session : Faults → ℕ → Session V → List Event → Server → Server
  unfolding serve mixed_track
  live_session faults at s events server = serve faults (mixed_track at s events) server
