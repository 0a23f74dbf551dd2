-- ===== src/LiveSession/Tests.antt =====
-- Short sessions of server/app/ws/live_session.py. A frame of audio counts as speech if its first byte is
-- not 0; an utterance is flushed when it has lasted a second.
use corella.Prelude.{
  ℕ, ◌+◌, ◌*◌, ◌/◌, ◌≡◌, refl, Bool, true, false, Option, none, some, List, [], ◌∷◌, ◌++◌, ltb,
  replicate, All, codes,
}
use corella.Vad
use corella.Vad.{Bytes, Detector, feed}
use corella.LiveSession.{me, them, side, Session, Settings, init, handle_audio_frame, count_segment}
use corella.LiveSession.Loop.{
  Event, received, preview_finished, segment_committed, bytes, text, stopped, crashed,
  not_an_object, object, is_stop, receive, run,
}
use corella.LiveSession.Valid.{IsValid, session-IsValid}
use corella.LiveSession.Frames.{chunks}
use corella.LiveSession.Recorded.{after, recording-chunks}
use corella.LiveSession.Heard.{pcms, sound}
use corella.LiveSession.Local.{queue-feed}

abbrev first_byte : Unit {0} → Bytes → Bool × Unit {0}
first_byte vad [] = (false, vad)
first_byte vad (b ∷ bs) = (ltb 0 b, vad)

abbrev whole_ms : ℕ → ℕ
whole_ms n = n / 32

abbrev settings : Settings
settings = record { copilot_trigger_segments = 2; copilot_trigger_ms = 20000 }

abbrev detector : Detector (Unit {0})
detector = Vad.init tt 1 30

abbrev frame : ℕ → Bytes
frame b = b ∷ replicate 960 1

-- Both channels speak, an administrator turns debugging on, a preview ends, and two segments start a
-- cycle of the copilot.
abbrev events : List Event
events =
    received 30 (bytes (frame 0))
    ∷ received 60 (bytes (frame 1))
    ∷ received 70 (bytes (frame 7))
    ∷ received 80 (text (object (some (codes "debug")) true))
    ∷ preview_finished me 90 20
    ∷ segment_committed 95
    ∷ segment_committed 100
    ∷ received 120 (bytes (frame 0))
    ∷ received 130 (text (object (some (codes "stop")) false))
    ∷ received 140 (bytes (frame 0))
    ∷ []

abbrev start : Session (Unit {0})
start = init true true detector detector

recording-chunks_example :
    (side me (after first_byte whole_ms settings events (none, start))).recording ≡ chunks me events
recording-chunks_example =
    recording-chunks first_byte whole_ms settings me true true detector detector events

session-IsValid_example : IsValid (run first_byte whole_ms settings events (none, start)).1
session-IsValid_example =
    session-IsValid first_byte whole_ms settings true true detector detector events

queue-feed_example :
    pcms them (after first_byte whole_ms settings events (none, start)).queue
    ≡ (feed first_byte (sound (chunks them events)) detector).0
queue-feed_example =
    queue-feed first_byte whole_ms settings them true true tt 1 30 events
      (refl, (refl, (refl, (refl, (refl, (refl, (refl, (refl, (refl, (refl, tt))))))))))

-- What the session of the events is in the end.
short_session :
    let (ended, s) = run first_byte whole_ms settings events (none, start) in
    (ended ≡ some stopped)
    × (s.debug_enabled ≡ true)
    × (s.cycles ≡ 1)
    × (s.promotions ≡ 1)
    × (s.mine.recording ≡ (30, replicate 960 1) ∷ (120, replicate 960 1) ∷ [])
    × (s.mine.next_preview_at ≡ 1090)
    × (s.mine.decodes ≡ 0)
unfolding run handle_audio_frame count_segment init Vad.init replicate Vad.observe
    corella.Prelude.take corella.Prelude.drop
short_session = (refl, refl, refl, refl, refl, refl, refl)

-- A text that is JSON and no object ends the session.
not_an_object_ends :
    receive first_byte whole_ms settings 30 (text not_an_object) start ≡ (some crashed, start)
unfolding receive is_stop
not_an_object_ends = refl
