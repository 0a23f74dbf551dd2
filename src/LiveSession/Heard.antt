-- ===== src/LiveSession/Heard.antt =====
-- A channel of a session of server/app/ws/live_session.py that is on the local detector, and the detector
-- of server/app/services/vad/vad.py on all that the channel sent.
use corella.Prelude.{
  ℕ, ◌≡◌, refl, sym, ap, ◌∙◌, Bool, true, false, Option, none, some, List, [], ◌∷◌, ◌++◌,
  append-nil, map, if◌then◌else◌, if-elim, arith,
}
use corella.Vad.{Bytes, Detector, feed}
use corella.Vad.Chunks.{feed-append}
use corella.LiveSession.{
  Utterance, Channel, me, them, Side, Session, side, with_side, promote, record_chunk, route,
  utterance, maybe_schedule_preview,
}
use corella.LiveSession.Loop.{Event, stream_opened}
use corella.LiveSession.Frames.{same_channel, side-promote}

-- The audio of the utterances of a channel, in the order in which they were put into the queue.
abbrev pub pcms : Channel → List Utterance → List Bytes
pcms c [] = []
pcms c (u ∷ us) = let rest = pcms c us in if same_channel c u.channel then u.pcm ∷ rest else rest

abbrev pub sound : List (ℕ × Bytes) → Bytes
sound [] = []
sound ((at, pcm) ∷ rest) = pcm ++ sound rest

abbrev pub opens : Channel → Event → Bool
opens c (stream_opened c') = same_channel c c'
opens c event = false

pcms-append :
    (c c' : Channel) (q : List Utterance) (at : ℕ) (duration_ms : ℕ → ℕ) (flushed : List Bytes)
    → pcms c (q ++ map (utterance duration_ms c' at) flushed)
      ≡ pcms c q ++ (if same_channel c c' then flushed else [])
pcms-append c c' [] at duration_ms flushed = all_on c c' flushed
  where
    all_on :
        (c c' : Channel) (flushed : List Bytes)
        → pcms c (map (utterance duration_ms c' at) flushed)
          ≡ (if same_channel c c' then flushed else [])
    all_on me me [] = refl
    all_on me them [] = refl
    all_on them me [] = refl
    all_on them them [] = refl
    all_on me me (pcm ∷ flushed) = ap (◌∷◌ pcm) (all_on me me flushed)
    all_on me them (pcm ∷ flushed) = all_on me them flushed
    all_on them me (pcm ∷ flushed) = all_on them me flushed
    all_on them them (pcm ∷ flushed) = ap (◌∷◌ pcm) (all_on them them flushed)
pcms-append c c' (u ∷ q) at duration_ms flushed =
    headed (same_channel c u.channel) (pcms c (q ++ map (utterance duration_ms c' at) flushed))
      (pcms c q) (if same_channel c c' then flushed else [])
      (pcms-append c c' q at duration_ms flushed)
  where
    headed :
        (b : Bool) (xs ys zs : List Bytes)
        → xs ≡ ys ++ zs
        → (if b then u.pcm ∷ xs else xs) ≡ (if b then u.pcm ∷ ys else ys) ++ zs
    headed true xs ys zs e = ap (◌∷◌ u.pcm) e
    headed false xs ys zs e = e

module _ {V : Type 0} where
  pub preview-stream :
      (c : Channel) (at : ℕ) (e : Side V) → (maybe_schedule_preview c at e).1.stream ≡ e.stream
  unfolding maybe_schedule_preview
  preview-stream c at e = ground arith

  pub preview-detector :
      (c : Channel) (at : ℕ) (e : Side V) → (maybe_schedule_preview c at e).1.detector ≡ e.detector
  unfolding maybe_schedule_preview
  preview-detector c at e = ground arith

module _ {V : Type 0} (is_speech : V → Bytes → Bool × V) (duration_ms : ℕ → ℕ)
    (d : Detector V) where
  -- The channel is on its detector, which is as after hearing the audio at once, and what it flushed is
  -- in the queue.
  abbrev pub Hears : Channel → Bytes → Session V → Type 0
  Hears c heard s =
      ((side c s).stream ≡ none)
      × (pcms c s.queue ≡ (feed is_speech heard d).0)
      × ((side c s).detector ≡ (feed is_speech heard d).1)

  pub Hears-same :
      (c : Channel) (heard : Bytes) (s s' : Session V)
      → (side c s').stream ≡ (side c s).stream
      → s'.queue ≡ s.queue
      → (side c s').detector ≡ (side c s).detector
      → Hears c heard s
      → Hears c heard s'
  Hears-same c heard s s' stream queue detector h =
      (stream ∙ h.0, ap (pcms c) queue ∙ h.1, detector ∙ h.2)

  queue-promote : (c : Channel) (s : Session V) → (promote c s).queue ≡ s.queue
  queue-promote me s = refl
  queue-promote them s =
      if-elim (λ (r : Session V). r.queue ≡ s.queue) s.capture_promoted s _ (λ e. refl) (λ e. refl)

  -- What is noted before the audio is routed.
  abbrev pub noted : Channel → ℕ → Bytes → Session V → Session V
  noted c at pcm s = promote c (with_side c (record_chunk at pcm (side c s)) s)

  pub Hears-noted :
      (c c' : Channel) (heard : Bytes) (at : ℕ) (pcm : Bytes) (s : Session V)
      → Hears c heard s
      → Hears c heard (noted c' at pcm s)
  Hears-noted c c' heard at pcm s h =
      let before : Session V = with_side c' (record_chunk at pcm (side c' s)) s in
      Hears-same c heard before (promote c' before)
        (ap (λ (e : Side V). e.stream) (side-promote c c' before)) (queue-promote c' before)
        (ap (λ (e : Side V). e.detector) (side-promote c c' before)) (recorded c c' h)
    where
      recorded :
          (c c' : Channel)
          → Hears c heard s
          → Hears c heard (with_side c' (record_chunk at pcm (side c' s)) s)
      recorded me me h = h
      recorded me them h = h
      recorded them me h = h
      recorded them them h = h

  flushed-append :
      (heard pcm : Bytes) (det : Detector V) (p : List Bytes)
      → p ≡ (feed is_speech heard d).0
      → det ≡ (feed is_speech heard d).1
      → p ++ (feed is_speech pcm det).0 ≡ (feed is_speech (heard ++ pcm) d).0
  flushed-append heard pcm det p hp hd =
      ap (λ x. x ++ (feed is_speech pcm det).0) hp
      ∙ ap (λ x. (feed is_speech heard d).0 ++ (feed is_speech pcm x).0) hd
      ∙ sym (ap (λ (r : List Bytes × Detector V). r.0) (feed-append is_speech heard pcm d))

  detector-append :
      (heard pcm : Bytes) (det : Detector V)
      → det ≡ (feed is_speech heard d).1
      → (feed is_speech pcm det).1 ≡ (feed is_speech (heard ++ pcm) d).1
  detector-append heard pcm det hd =
      ap (λ x. (feed is_speech pcm x).1) hd
      ∙ sym (ap (λ (r : List Bytes × Detector V). r.1) (feed-append is_speech heard pcm d))

  -- The detector hears the audio of its channel.
  pub Hears-route_same :
      (c : Channel) (heard : Bytes) (at : ℕ) (pcm : Bytes) (s : Session V)
      → Hears c heard s
      → Hears c (heard ++ pcm) (route is_speech duration_ms none c at pcm s)
  Hears-route_same me heard at pcm s h = (
    h.0,
    pcms-append me me s.queue at duration_ms (feed is_speech pcm s.mine.detector).0
        ∙ flushed-append heard pcm s.mine.detector (pcms me s.queue) h.1 h.2,
    detector-append heard pcm s.mine.detector h.2,
  )
  Hears-route_same them heard at pcm s h = (
    h.0,
    pcms-append them them s.queue at duration_ms (feed is_speech pcm s.theirs.detector).0
        ∙ flushed-append heard pcm s.theirs.detector (pcms them s.queue) h.1 h.2,
    detector-append heard pcm s.theirs.detector h.2,
  )

  -- And the audio of the other one does not reach it.
  pub Hears-route_other :
      (o : Option (List Bytes)) (c c' : Channel) (heard : Bytes) (at : ℕ) (pcm : Bytes)
      (s : Session V)
      → same_channel c c' ≡ false
      → Hears c heard s
      → Hears c heard (route is_speech duration_ms o c' at pcm s)
  Hears-route_other o me me heard at pcm s e h = cc
  Hears-route_other o them them heard at pcm s e h = cc
  Hears-route_other (some sent) me them heard at pcm s e h = h
  Hears-route_other (some sent) them me heard at pcm s e h = h
  Hears-route_other none me them heard at pcm s e h = (
    h.0,
    pcms-append me them s.queue at duration_ms (feed is_speech pcm s.theirs.detector).0
        ∙ append-nil (pcms me s.queue)
        ∙ h.1,
    h.2,
  )
  Hears-route_other none them me heard at pcm s e h = (
    h.0,
    pcms-append them me s.queue at duration_ms (feed is_speech pcm s.mine.detector).0
        ∙ append-nil (pcms them s.queue)
        ∙ h.1,
    h.2,
  )
