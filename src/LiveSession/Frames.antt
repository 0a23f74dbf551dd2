-- ===== src/LiveSession/Frames.antt =====
-- What a connection's frames leave in a session of server/app/ws/live_session.py: an independent reading
-- of the messages up to the one that ends the loop.
use corella.Prelude.{
  ℕ, ◌≡◌, refl, Bool, true, false, not, Option, none, some, List, [], ◌∷◌, ◌++◌, if◌then◌else◌,
  if-elim, arith,
}
use corella.Vad.{Bytes}
use corella.LiveSession.{
  Channel, me, them, Side, Session, Settings, side, with_side, promote, maybe_schedule_preview,
  schedule, channel_by_byte, count_segment, finish_cycle,
}
use corella.LiveSession.Loop.{Event, received, Message, disconnect, bytes, text, empty, is_stop}

abbrev pub same_channel : Channel → Channel → Bool
same_channel me me = true
same_channel me them = false
same_channel them me = false
same_channel them them = true

abbrev pub is_on : Channel → Option Channel → Bool
is_on c none = false
is_on c (some c') = same_channel c c'

-- The audio of a frame, where it is for the channel.
abbrev pub payload : Channel → ℕ → Bytes → List (ℕ × Bytes)
payload c at [] = []
payload c at (b ∷ []) = []
payload c at (b ∷ x ∷ pcm) = if is_on c (channel_by_byte b) then (at, x ∷ pcm) ∷ [] else []

-- Does the message end the loop?
abbrev pub goes_on : Option Bool → Bool
goes_on none = false
goes_on (some stop) = not stop

abbrev pub ends : Message → Bool
ends disconnect = true
ends (bytes frame) = false
ends (text json) = not (goes_on (is_stop json))
ends empty = false

-- The audio of a channel that arrives before the loop ends, chunk by chunk.
unfoldable pub chunks : Channel → List Event → List (ℕ × Bytes)
unfolding is_stop
chunks c [] = []
chunks c (received at (bytes frame) ∷ events) = payload c at frame ++ chunks c events
chunks c (received at message ∷ events) =
    let rest = chunks c events in if ends message then [] else rest
chunks c (event ∷ events) = chunks c events

module _ {V : Type 0} where
  pub side-with_side : (c : Channel) (d : Side V) (s : Session V) → side c (with_side c d s) ≡ d
  side-with_side me d s = refl
  side-with_side them d s = refl

  -- A change of one side that keeps the recording keeps both recordings.
  pub recording-with_side :
      (c c' : Channel) (d : Side V) (s : Session V)
      → d.recording ≡ (side c' s).recording
      → (side c (with_side c' d s)).recording ≡ (side c s).recording
  recording-with_side me me d s h = h
  recording-with_side me them d s h = refl
  recording-with_side them me d s h = refl
  recording-with_side them them d s h = h

  pub side-promote : (c c' : Channel) (s : Session V) → side c (promote c' s) ≡ side c s
  side-promote c me s = refl
  side-promote me them s =
      if-elim (λ (r : Session V). r.mine ≡ s.mine) s.capture_promoted s _ (λ e. refl) (λ e. refl)
  side-promote them them s =
      if-elim (λ (r : Session V). r.theirs ≡ s.theirs) s.capture_promoted s _ (λ e. refl)
        (λ e. refl)

  pub preview-recording :
      (c : Channel) (at : ℕ) (d : Side V)
      → (maybe_schedule_preview c at d).1.recording ≡ d.recording
  unfolding maybe_schedule_preview
  preview-recording c at d = ground arith

  pub recording-schedule :
      (c c' : Channel) (at : ℕ) (s : Session V)
      → (side c (schedule c' at s)).recording ≡ (side c s).recording
  recording-schedule c c' at s =
      recording-with_side c c' (maybe_schedule_preview c' at (side c' s)).1 s
        (preview-recording c' at (side c' s))

  pub side-count_segment :
      (settings : Settings) (c : Channel) (at : ℕ) (s : Session V)
      → side c (count_segment settings at s) ≡ side c s
  unfolding count_segment
  side-count_segment settings me at s = ground arith
  side-count_segment settings them at s = ground arith

  pub side-finish_cycle : (c : Channel) (s : Session V) → side c (finish_cycle s) ≡ side c s
  unfolding finish_cycle
  side-finish_cycle me s = refl
  side-finish_cycle them s = refl
