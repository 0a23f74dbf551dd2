-- ===== src/Vad/Chunks.antt =====
-- `feed` of server/app/services/vad/vad.py does not depend on how its audio is cut into chunks.
use corella.Prelude.{
  ℕ, zero, suc, ◌≤◌, ◌≡◌, refl, sym, ap, Bool, Bool-cases, inl, inr, true, false, List, [], ◌++◌,
  arith, leb, append_assoc, ◌∙◌, length, take, drop, length-append, length-drop, take-append,
  drop-append,
}
use corella.Vad.{Bytes, Detector, frame_bytes, observe, drain, feed}

module _ {V : Type 0} (is_speech : V → Bytes → Bool × V) where
  -- The loop's work on a frame neither reads nor writes what is left over.
  pub leftover-observe :
      (frame rest : Bytes) (d : Detector V)
      → observe is_speech frame (record d { leftover = rest })
        ≡ ((observe is_speech frame d).0, record (observe is_speech frame d).1 { leftover = rest })
  unfolding observe
  leftover-observe frame rest d = ground arith

  -- One round of the loop.
  abbrev pub round : Detector V → List Bytes × Detector V
  round d =
      observe is_speech (take frame_bytes d.leftover)
        (record d { leftover = drop frame_bytes d.leftover })

  pub leftover-round : (d : Detector V) → (round d).1.leftover ≡ drop frame_bytes d.leftover
  leftover-round d =
      ap (λ r. r.1.leftover)
        (leftover-observe (take frame_bytes d.leftover) (drop frame_bytes d.leftover) d)

  pub drain_short :
      (fuel : ℕ) (d : Detector V)
      → leb frame_bytes (length d.leftover) ≡ false
      → drain is_speech fuel d ≡ ([], d)
  unfolding drain
  drain_short zero d h = refl
  drain_short (suc fuel) d h = rw h

  pub drain_long :
      (fuel : ℕ) (d : Detector V)
      → leb frame_bytes (length d.leftover) ≡ true
      → drain is_speech (suc fuel) d ≡ (
        (round d).0 ++ (drain is_speech fuel (round d).1).0,
        (drain is_speech fuel (round d).1).1,
      )
  unfolding drain
  drain_long fuel d h = rw h

  length-round :
      (n : ℕ) (d : Detector V)
      → leb frame_bytes (length d.leftover) ≡ true
      → length d.leftover ≤ suc n
      → length (round d).1.leftover ≤ n
  length-round n d h p = rw leftover-round (rw length-drop (ground arith))

  pub drain_fuel :
      (f g : ℕ) (d : Detector V)
      → length d.leftover ≤ f
      → length d.leftover ≤ g
      → drain is_speech f d ≡ drain is_speech g d
  drain_fuel zero g d p q =
      let short : leb frame_bytes (length d.leftover) ≡ false = ground arith in
      drain_short zero d short ∙ sym (drain_short g d short)
  drain_fuel (suc f) zero d p q =
      let short : leb frame_bytes (length d.leftover) ≡ false = ground arith in
      drain_short (suc f) d short ∙ sym (drain_short zero d short)
  drain_fuel (suc f) (suc g) d p q = elim (Bool-cases (leb frame_bytes (length d.leftover))) [
    | inl h ↦
        rw (drain_long f d h, drain_long g d h)
          (ap (λ (r : List Bytes × Detector V). ((round d).0 ++ r.0, r.1))
            (drain_fuel f g (round d).1 (length-round f d h p) (length-round g d h q)))
    | inr h ↦ drain_short (suc f) d h ∙ sym (drain_short (suc g) d h)
  ]

  abbrev more : Bytes → Detector V → Detector V
  more b d = record d { leftover = d.leftover ++ b }

  -- A round on longer audio is the same round, with the addition still to come.
  round-more :
      (b : Bytes) (d : Detector V)
      → leb frame_bytes (length d.leftover) ≡ true
      → round (more b d) ≡ ((round d).0, more b (round d).1)
  round-more b d h =
      rw
        (
          take-append frame_bytes d.leftover b (ground arith),
          drop-append frame_bytes d.leftover b (ground arith),
        )
        (rw (
          leftover-observe (take frame_bytes d.leftover) (drop frame_bytes d.leftover ++ b) d,
          leftover-observe (take frame_bytes d.leftover) (drop frame_bytes d.leftover) d,
        ))

  -- What `drain-more` claims of one detector, the loop's audio `b` arriving late.
  abbrev Splits : ℕ → ℕ → ℕ → Bytes → Detector V → Type 0
  Splits f g k b d =
      length d.leftover ≤ f
      → length (d.leftover ++ b) ≤ g
      → length ((drain is_speech f d).1.leftover ++ b) ≤ k
      → drain is_speech g (more b d) ≡ (
        (drain is_speech f d).0 ++ (drain is_speech k (more b (drain is_speech f d).1)).0,
        (drain is_speech k (more b (drain is_speech f d).1)).1,
      )

  length-round-more :
      (g : ℕ) (b : Bytes) (d : Detector V)
      → leb frame_bytes (length d.leftover) ≡ true
      → length (d.leftover ++ b) ≤ suc g
      → length ((round d).1.leftover ++ b) ≤ g
  length-round-more g b d h q =
      rw leftover-round
        (rw length-append (rw length-drop (ground (arith, length-append d.leftover b))))

  Splits-short :
      (f g k : ℕ) (b : Bytes) (d : Detector V)
      → leb frame_bytes (length d.leftover) ≡ false
      → Splits f g k b d
  Splits-short f g k b d h p q r =
      rw (drain_short f d h) (drain_fuel g k (more b d) q (rw (drain_short f d h) at r))

  Splits-long :
      (f g k : ℕ) (b : Bytes) (d : Detector V)
      → leb frame_bytes (length d.leftover) ≡ true
      → Splits f g k b (round d).1
      → Splits (suc f) (suc g) k b d
  Splits-long f g k b d h ih p q r = rw (
    drain_long f d h,
    drain_long g (more b d) (rw length-append (ground arith)),
    round-more b d h,
    ih (length-round f d h p) (length-round-more g b d h q) (rw (drain_long f d h) at r),
    append_assoc,
  )

  drain-more : (f g k : ℕ) (b : Bytes) (d : Detector V) → Splits f g k b d
  drain-more zero g k b d p = Splits-short zero g k b d (ground arith) p
  drain-more (suc f) zero k b d p =
      λ q. Splits-short (suc f) zero k b d (ground (arith, length-append d.leftover b)) p q
  drain-more (suc f) (suc g) k b d p = elim (Bool-cases (leb frame_bytes (length d.leftover))) [
    | inl h ↦ Splits-long f g k b d h (drain-more f g k b (round d).1) p
    | inr h ↦ Splits-short (suc f) (suc g) k b d h p
  ]

  -- Feeding two chunks in turn flushes the utterances, and leaves the detector, of one call that is
  -- fed both together.
  pub feed-append :
      (a b : Bytes) (d : Detector V)
      → feed is_speech (a ++ b) d ≡ (
        (feed is_speech a d).0 ++ (feed is_speech b (feed is_speech a d).1).0,
        (feed is_speech b (feed is_speech a d).1).1,
      )
  unfolding feed
  feed-append a b d =
      let d' : Detector V = record d { leftover = d.leftover ++ a } in
      let n : ℕ = length (d.leftover ++ a) in
      let k : ℕ = length ((drain is_speech n d').1.leftover ++ b) in
      rw (← append_assoc) (
        drain-more n (length ((d.leftover ++ a) ++ b)) k b d' (omega arith) (omega arith)
          (omega arith))
