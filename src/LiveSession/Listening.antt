-- ===== src/LiveSession/Listening.antt =====
-- What a frame of server/app/ws/live_session.py adds to what a channel on the local detector has heard.
use mathlib.Core.Path.{subst}
use corella.Prelude.{
  ℕ, ◌≡◌, refl, sym, Bool, true, false, not, ◌||◌, Option, none, some, [], ◌∷◌, ◌++◌, append-nil,
  if◌then◌else◌, if-elim, codes,
}
use corella.Vad.{Bytes, Detector}
use corella.LiveSession.{
  Channel, me, them, Session, side, route, on_audio, schedule, handle_on, channel_by_byte,
  handle_audio_frame,
}
use corella.LiveSession.Loop.{Json, malformed, not_an_object, object, is_type, handle_control_frame}
use corella.LiveSession.Frames.{same_channel, is_on, payload}
use corella.LiveSession.Heard.{
  sound, Hears, Hears-same, noted, preview-stream, preview-detector, Hears-noted, Hears-route_same,
  Hears-route_other,
}

module _ {V : Type 0} (is_speech : V → Bytes → Bool × V) (duration_ms : ℕ → ℕ)
    (d : Detector V) where
  Hears-schedule :
      (c c' : Channel) (heard : Bytes) (at : ℕ) (s : Session V)
      → Hears is_speech duration_ms d c heard s
      → Hears is_speech duration_ms d c heard (schedule c' at s)
  Hears-schedule c c' heard at s h =
      Hears-same is_speech duration_ms d c heard s (schedule c' at s) (stream c c') (queue c')
        (detector c c') h
    where
      stream : (c k : Channel) → (side c (schedule k at s)).stream ≡ (side c s).stream
      stream me me = preview-stream me at s.mine
      stream me them = refl
      stream them me = refl
      stream them them = preview-stream them at s.theirs

      queue : (k : Channel) → (schedule k at s).queue ≡ s.queue
      queue me = refl
      queue them = refl

      detector : (c k : Channel) → (side c (schedule k at s)).detector ≡ (side c s).detector
      detector me me = preview-detector me at s.mine
      detector me them = refl
      detector them me = refl
      detector them them = preview-detector them at s.theirs

  own :
      (c : Channel) (heard : Bytes) (at : ℕ) (pcm : Bytes) (s : Session V)
      → Hears is_speech duration_ms d c heard s
      → Hears is_speech duration_ms d c (heard ++ pcm) (on_audio is_speech duration_ms c at pcm s)
  unfolding on_audio
  own c heard at pcm s h =
      let n : Session V = noted is_speech duration_ms d c at pcm s in
      let hn : Hears is_speech duration_ms d c heard n =
        Hears-noted is_speech duration_ms d c c heard at pcm s h in
      subst
        (λ o.
          Hears is_speech duration_ms d c (heard ++ pcm) (route is_speech duration_ms o c at pcm n))
        (sym hn.0) (Hears-route_same is_speech duration_ms d c heard at pcm n hn)

  foreign :
      (c c' : Channel) (heard : Bytes) (at : ℕ) (pcm : Bytes) (s : Session V)
      → same_channel c c' ≡ false
      → Hears is_speech duration_ms d c heard s
      → Hears is_speech duration_ms d c (heard ++ []) (on_audio is_speech duration_ms c' at pcm s)
  unfolding on_audio
  foreign c c' heard at pcm s e h =
      let n : Session V = noted is_speech duration_ms d c' at pcm s in
      subst
        (λ b.
          Hears is_speech duration_ms d c b
            (route is_speech duration_ms (side c' n).stream c' at pcm n))
        (sym (append-nil heard))
        (Hears-route_other is_speech duration_ms d (side c' n).stream c c' heard at pcm n e
          (Hears-noted is_speech duration_ms d c c' heard at pcm s h))

  nothing_more :
      (c : Channel) (heard : Bytes) (s : Session V)
      → Hears is_speech duration_ms d c heard s
      → Hears is_speech duration_ms d c (heard ++ []) s
  nothing_more c heard s h =
      subst (λ b. Hears is_speech duration_ms d c b s) (sym (append-nil heard)) h

  Hears-on_audio :
      (c c' : Channel) (heard : Bytes) (at : ℕ) (pcm : Bytes) (s : Session V)
      → Hears is_speech duration_ms d c heard s
      → Hears is_speech duration_ms d c
          (heard ++ (if same_channel c c' then pcm else []))
          (on_audio is_speech duration_ms c' at pcm s)
  unfolding on_audio
  Hears-on_audio me me heard at pcm s h = own me heard at pcm s h
  Hears-on_audio them them heard at pcm s h = own them heard at pcm s h
  Hears-on_audio me them heard at pcm s h = foreign me them heard at pcm s refl h
  Hears-on_audio them me heard at pcm s h = foreign them me heard at pcm s refl h

  pub Hears-frame :
      (c : Channel) (heard : Bytes) (at : ℕ) (frame : Bytes) (s : Session V)
      → Hears is_speech duration_ms d c heard s
      → Hears is_speech duration_ms d c
          (heard ++ sound (payload c at frame))
          (handle_audio_frame is_speech duration_ms at frame s)
  unfolding handle_audio_frame
  Hears-frame c heard at [] s h = nothing_more c heard s h
  Hears-frame c heard at (b ∷ []) s h = nothing_more c heard s h
  Hears-frame c heard at (b ∷ x ∷ pcm) s h = on (channel_by_byte b)
    where
      sounds :
          (b : Bool) → (if b then x ∷ pcm else []) ≡ sound (if b then (at, x ∷ pcm) ∷ [] else [])
      sounds true = sym (append-nil (x ∷ pcm))
      sounds false = refl

      on :
          (o : Option Channel)
          → Hears is_speech duration_ms d c
              (heard ++ sound (if is_on c o then (at, x ∷ pcm) ∷ [] else []))
              (handle_on is_speech duration_ms o at (x ∷ pcm) s)
      on none = nothing_more c heard s h
      on (some c') =
          Hears-schedule c c'
            (heard ++ sound (if same_channel c c' then (at, x ∷ pcm) ∷ [] else [])) at
            (on_audio is_speech duration_ms c' at (x ∷ pcm) s)
            (subst
              (λ b.
                Hears is_speech duration_ms d c (heard ++ b)
                  (on_audio is_speech duration_ms c' at (x ∷ pcm) s))
              (sounds (same_channel c c')) (Hears-on_audio c c' heard at (x ∷ pcm) s h))

  pub Hears-control :
      (c : Channel) (heard : Bytes) (json : Json) (s : Session V)
      → Hears is_speech duration_ms d c heard s
      → Hears is_speech duration_ms d c heard (handle_control_frame json s)
  unfolding handle_control_frame
  Hears-control c heard malformed s h = h
  Hears-control c heard not_an_object s h = h
  Hears-control me heard (object type enabled) s h =
      if-elim (Hears is_speech duration_ms d me heard)
        (not (is_type (codes "debug") type) || not s.is_admin) s
        (record s { debug_enabled = enabled }) (λ e. h) (λ e. h)
  Hears-control them heard (object type enabled) s h =
      if-elim (Hears is_speech duration_ms d them heard)
        (not (is_type (codes "debug") type) || not s.is_admin) s
        (record s { debug_enabled = enabled }) (λ e. h) (λ e. h)
