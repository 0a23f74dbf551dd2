-- ===== src/LiveSession/Audio.antt =====
-- What is left of a meeting after `live_session_ws` of server/app/ws/live_session.py: its status and its
-- audio.
use mathlib.Core.Path.{ap₂}
use corella.Prelude.{
  ℕ, ◌≤◌, ◌<◌, ◌≡◌, refl, ap, ◌∙◌, arith, Bool, true, false, not, ◌&&◌, Option, none, some, List,
  [], ◌∷◌, concat, any, all, is_some, ℤ,
}
use corella.Vad.{Bytes, Detector, flush_remaining}
use corella.Mixing.{clip, frombuffer, has_chunks, total_samples, mix_channel_recordings}
use corella.Mixing.Sums.{is_whole, sum_at, cover_at, heard_at, mix-is_some, mix-sums}
use corella.LiveSession.{
  Channel, me, them, Session, Settings, init, enqueue_leftover, enqueue_leftovers,
}
use corella.LiveSession.Loop.{Event, run}
use corella.LiveSession.Frames.{chunks}
use corella.LiveSession.Recorded.{recording-chunks}
use corella.LiveSession.Finish.{
  Status, recording, ready, failed, Row, Faults, stored, recordings, mixed_track, serve, locked,
  live_session,
}

-- The frames of both channels that arrive before the loop ends.
abbrev pub heard : List Event → List (List (ℕ × Bytes))
heard events = chunks me events ∷ chunks them events ∷ []

-- Nothing is left to be done for the meeting.
abbrev pub settled : Status → Bool
settled ready = true
settled failed = true
settled _ = false

abbrev pub is_settled : Option Row → Bool
is_settled none = false
is_settled (some row) = settled row.status

module _ {V : Type 0} (is_speech : V → Bytes → Bool × V) (duration_ms sample_at : ℕ → ℕ)
    (settings : Settings) where
  recordings-enqueue_leftover :
      (c : Channel) (at : ℕ) (r : Option Bytes × Detector V) (s : Session V)
      → recordings (enqueue_leftover is_speech duration_ms c at r s) ≡ recordings s
  recordings-enqueue_leftover me at (none, d) s = refl
  recordings-enqueue_leftover them at (none, d) s = refl
  recordings-enqueue_leftover me at (some [], d) s = refl
  recordings-enqueue_leftover them at (some [], d) s = refl
  recordings-enqueue_leftover me at (some (b ∷ leftover), d) s = refl
  recordings-enqueue_leftover them at (some (b ∷ leftover), d) s = refl

  recordings-enqueue_leftovers :
      (at : ℕ) (s : Session V)
      → recordings (enqueue_leftovers is_speech duration_ms at s) ≡ recordings s
  unfolding enqueue_leftovers
  recordings-enqueue_leftovers at s =
      let s' : Session V =
        enqueue_leftover is_speech duration_ms me at (flush_remaining s.mine.detector) s in
      recordings-enqueue_leftover them at (flush_remaining s'.theirs.detector) s'
      ∙ recordings-enqueue_leftover me at (flush_remaining s.mine.detector) s

  mixed-heard :
      (at : ℕ) (is_admin has_provider : Bool) (mine theirs : Detector V) (events : List Event)
      → mixed_track is_speech duration_ms sample_at settings at
          (init is_admin has_provider mine theirs)
          events
        ≡ mix_channel_recordings duration_ms sample_at (heard events)
  unfolding mixed_track
  mixed-heard at is_admin has_provider mine theirs events =
      let r =
        run is_speech duration_ms settings events (none, init is_admin has_provider mine theirs) in
      ap (mix_channel_recordings duration_ms sample_at) (recordings-enqueue_leftovers at r.1)
      ∙ ap₂ (λ (a b : List (ℕ × Bytes)). mix_channel_recordings duration_ms sample_at (a ∷ b ∷ []))
          (recording-chunks is_speech duration_ms settings me is_admin has_provider mine theirs
            events)
          (recording-chunks is_speech duration_ms settings them is_admin has_provider mine theirs
            events)

-- A row as the gate lets it in.
abbrev pub fresh : Row
fresh = record { status = recording; audio = none; processing_error = false }

serve-is_settled :
    (faults : Faults) (mixed : Option Bytes) (whole : Bool)
    → is_some mixed ≡ whole
    → is_settled (serve faults mixed (locked fresh)).meeting ≡ (
        not faults.setup_raises
        && not faults.ready_raises
        && not faults.mark_raises
        && whole
        && not faults.lookup_raises
        && not (faults.store_raises && faults.recover_raises))
unfolding serve
serve-is_settled faults none false h = ground arith
serve-is_settled faults none true h = cc
serve-is_settled faults (some pcm) false h = cc
serve-is_settled faults (some []) true h = ground arith
serve-is_settled faults (some (b ∷ pcm)) true h = ground arith

-- A meeting that is being recorded, a session from the start with any events, and whatever raises: in the
-- end the meeting is ready or failed exactly if the setup, the sending of "ready" and the marking do not
-- raise, every frame of either channel before the end of the loop has a whole number of samples, the lookup
-- does not raise, and not both the storing and the recovery from it do. A later time has to be no earlier
-- sample.
pub live_session-is_settled :
    {V : Type 0} (is_speech : V → Bytes → Bool × V) (duration_ms sample_at : ℕ → ℕ)
    (settings : Settings) (faults : Faults) (at : ℕ) (is_admin has_provider : Bool)
    (mine theirs : Detector V) (events : List Event)
    → ((a b : ℕ) → a ≤ b → sample_at a ≤ sample_at b)
    → is_settled
        (live_session is_speech duration_ms sample_at settings faults at
          (init is_admin has_provider mine theirs)
          events
          (locked fresh)).meeting
      ≡ (not faults.setup_raises
          && not faults.ready_raises
          && not faults.mark_raises
          && all (λ (c : ℕ × Bytes). is_whole c.1) (concat (heard events))
          && not faults.lookup_raises
          && not (faults.store_raises && faults.recover_raises))
unfolding live_session
live_session-is_settled is_speech duration_ms sample_at settings faults at is_admin has_provider
      mine theirs events mono =
    serve-is_settled faults _ _ (
      ap is_some (
        mixed-heard is_speech duration_ms sample_at settings at is_admin has_provider mine theirs
          events)
      ∙ mix-is_some duration_ms sample_at (heard events) mono)

abbrev pub sound_at : ℕ → Option Row → Option ℤ
sound_at i none = none
sound_at i (some row) = heard_at i row.audio

-- Nothing raises that keeps the row from being finished.
abbrev pub is_lucky : Faults → Bool
is_lucky faults =
    not faults.setup_raises
    && not faults.ready_raises
    && not faults.mark_raises
    && not faults.lookup_raises
    && not faults.store_raises

serve-stored :
    (faults : Faults) (pcm : Bytes)
    → is_lucky faults ≡ true
    → (serve faults (some pcm) (locked fresh)).meeting ≡ some (stored pcm fresh)
unfolding serve
serve-stored faults pcm lucky = ground arith

serve_sound :
    (faults : Faults) (mixed : Option Bytes) (i : ℕ) (v : ℤ)
    → is_lucky faults ≡ true
    → heard_at i mixed ≡ some v
    → sound_at i (serve faults mixed (locked fresh)).meeting ≡ some v
unfolding frombuffer
serve_sound faults none i v lucky h = cc
serve_sound faults (some []) i v lucky h = cc
serve_sound faults (some (b ∷ pcm)) i v lucky h =
    ap (sound_at i) (serve-stored faults (b ∷ pcm) lucky) ∙ h

-- From the frames of a session to the file of its meeting. Where nothing raises that keeps the row from
-- being finished, a later time is no earlier sample, there was audio, and every frame was a whole number
-- of samples: at each position of the track that at most 65535 frames reach over, the file has the sum of
-- what the frames of both channels that arrived before the end of the loop have there, cut to 16 bits;
-- whatever else happened in the session, in whatever order, and whatever became of the streams.
pub live_session-sound_at :
    {V : Type 0} (is_speech : V → Bytes → Bool × V) (duration_ms sample_at : ℕ → ℕ)
    (settings : Settings) (faults : Faults) (at : ℕ) (is_admin has_provider : Bool)
    (mine theirs : Detector V) (events : List Event) (i : ℕ)
    → ((a b : ℕ) → a ≤ b → sample_at a ≤ sample_at b)
    → is_lucky faults ≡ true
    → any has_chunks (heard events) ≡ true
    → all (λ (c : ℕ × Bytes). is_whole c.1) (concat (heard events)) ≡ true
    → i < total_samples duration_ms sample_at (concat (heard events))
    → cover_at duration_ms sample_at i (concat (heard events)) ≤ 65535
    → sound_at i
        (live_session is_speech duration_ms sample_at settings faults at
          (init is_admin has_provider mine theirs)
          events
          (locked fresh)).meeting
      ≡ some (clip (sum_at duration_ms sample_at i (concat (heard events))))
unfolding live_session
live_session-sound_at is_speech duration_ms sample_at settings faults at is_admin has_provider mine
      theirs events i mono lucky audio whole h few =
    serve_sound faults _ i _ lucky (
      ap (heard_at i) (
        mixed-heard is_speech duration_ms sample_at settings at is_admin has_provider mine theirs
          events)
      ∙ mix-sums duration_ms sample_at (heard events) i mono audio whole h few)
