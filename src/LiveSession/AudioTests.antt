-- ===== src/LiveSession/AudioTests.antt =====
-- What is left of a short session of server/app/ws/live_session.py: two frames at once, one on each
-- channel, that are too loud together. 16 samples are a millisecond.
use corella.Prelude.{
  ℕ, ◌*◌, ◌/◌, ◌≤◌, ◌≡◌, ◌&&◌, refl, arith, Bool, true, false, not, none, some, List, [], ◌∷◌, any,
  all, concat, pos, ◌+ℤ◌,
}
use corella.Vad
use corella.Vad.{Bytes, Detector}
use corella.Mixing.{clip, frombuffer, total_samples}
use corella.Mixing.Sums.{is_whole, sum_at}
use corella.LiveSession.{Settings, init}
use corella.LiveSession.Loop.{Event, received, bytes}
use corella.LiveSession.Frames.{chunks}
use corella.LiveSession.Finish.{Server, Faults, locked, serve, live_session}
use corella.LiveSession.Audio.{
  heard, is_settled, fresh, sound_at, live_session-is_settled, live_session-sound_at,
}

abbrev deaf : Unit {0} → Bytes → Bool × Unit {0}
deaf vad frame = (false, vad)

abbrev whole_ms : ℕ → ℕ
whole_ms n = n / 32

abbrev sixteen : ℕ → ℕ
sixteen t = t * 16

sixteen_grows : (a b : ℕ) → a ≤ b → sixteen a ≤ sixteen b
sixteen_grows a b h = omega arith

abbrev settings : Settings
settings = record { copilot_trigger_segments = 2; copilot_trigger_ms = 20000 }

abbrev detector : Detector (Unit {0})
detector = Vad.init tt 15 300

abbrev events : List Event
events = received 5 (bytes (0 ∷ 0 ∷ 0x70 ∷ [])) ∷ received 5 (bytes (1 ∷ 0 ∷ 0x20 ∷ [])) ∷ []

abbrev no_faults : Faults
no_faults = record {
  setup_raises = false;
  ready_raises = false;
  mark_raises = false;
  release_raises = true;
  lookup_raises = false;
  store_raises = false;
  recover_raises = false;
}

live_session-sound_at_example :
    sound_at 80
      (live_session deaf whole_ms sixteen settings no_faults 9
        (init true true detector detector)
        events
        (locked fresh)).meeting
    ≡ some (clip (sum_at whole_ms sixteen 80 (concat (heard events))))
unfolding total_samples chunks any all frombuffer
live_session-sound_at_example =
    live_session-sound_at deaf whole_ms sixteen settings no_faults 9 true true detector detector
      events 80 sixteen_grows refl refl refl (omega arith) (omega arith)

loud_clipped : clip (sum_at whole_ms sixteen 80 (concat (heard events))) ≡ pos 32767
unfolding clip frombuffer chunks ◌+ℤ◌
loud_clipped = refl

live_session-is_settled_example :
    is_settled
      (live_session deaf whole_ms sixteen settings no_faults 9
        (init true true detector detector)
        events
        (locked fresh)).meeting
    ≡ (not no_faults.setup_raises
        && not no_faults.ready_raises
        && not no_faults.mark_raises
        && all (λ (c : ℕ × Bytes). is_whole c.1) (concat (heard events))
        && not no_faults.lookup_raises
        && not (no_faults.store_raises && no_faults.recover_raises))
live_session-is_settled_example =
    live_session-is_settled deaf whole_ms sixteen settings no_faults 9 true true detector detector
      events sixteen_grows

-- One frame with an odd number of bytes, and the meeting is never finished.
odd_frame :
    is_settled
      (live_session deaf whole_ms sixteen settings no_faults 9
        (init true true detector detector)
        (received 7 (bytes (0 ∷ 1 ∷ [])) ∷ events)
        (locked fresh)).meeting
    ≡ false
unfolding chunks all
odd_frame =
    live_session-is_settled deaf whole_ms sixteen settings no_faults 9 true true detector detector
      (received 7 (bytes (0 ∷ 1 ∷ [])) ∷ events) sixteen_grows

-- A client that is gone before "ready": the lock is renewed on, and the meeting is still recording.
gone_before_ready :
    let server : Server = serve (record no_faults { ready_raises = true }) none (locked fresh) in
    (server.renewing ≡ true) × (server.released ≡ false) × (is_settled server.meeting ≡ false)
unfolding serve
gone_before_ready = (refl, refl, refl)
