-- ===== src/Vad/Tests.antt =====
-- The detector of server/app/services/vad/vad.py on concrete audio: a frame is speech if its first
-- byte is not 0.
use corella.Prelude.{◌≡◌, refl, Bool, true, false, [], ◌∷◌, ◌++◌, arith, ltb, take, drop, replicate}
use corella.Vad.{Bytes, Detector, init, feed, drain, observe}
use corella.Vad.Chunks.{feed-append}
use corella.Vad.Silence.{silence_hoarded}

abbrev first_byte : Unit {0} → Bytes → Bool × Unit {0}
first_byte vad [] = (false, vad)
first_byte vad (b ∷ bs) = (ltb 0 b, vad)

abbrev never : Unit {0} → Bytes → Bool × Unit {0}
never vad frame = (false, vad)

abbrev always : Unit {0} → Bytes → Bool × Unit {0}
always vad frame = (true, vad)

abbrev detector : Detector (Unit {0})
detector = record {
  vad = tt;
  max_utterance_ms = 15000;
  min_utterance_ms = 60;
  leftover = 1 ∷ [];
  utterance = 1 ∷ [];
  silence_ms = 0;
  speech_ms = 30;
}

-- Three frames of speech reach a cap of 90 ms and are flushed whole; the rest is left over.
feed_capped :
    let d : Detector (Unit {0}) = record detector {
      max_utterance_ms = 90;
      leftover = [];
      utterance = [];
      speech_ms = 0;
    } in
    let (flushed, d') = feed first_byte (replicate 2881 1) d in
    (flushed ≡ replicate 2880 1 ∷ []) × (d'.leftover ≡ 1 ∷ []) × (d'.utterance ≡ [])
unfolding feed drain observe replicate take drop
feed_capped = (refl, refl, refl)

feed-append_example : feed first_byte (replicate 700 1 ++ replicate 700 1) (init tt 15 300) ≡ (
  (feed first_byte (replicate 700 1) (init tt 15 300)).0
      ++ (feed first_byte
          (replicate 700 1)
          (feed first_byte (replicate 700 1) (init tt 15 300)).1).0,
  (feed first_byte (replicate 700 1) (feed first_byte (replicate 700 1) (init tt 15 300)).1).1,
)
feed-append_example = feed-append first_byte (replicate 700 1) (replicate 700 1) (init tt 15 300)

silence_hoarded_example :
    ((feed never (replicate 9600 0) detector).0 ≡ [])
    × ((feed never (replicate 9600 0) detector).1.utterance
          ++ (feed never (replicate 9600 0) detector).1.leftover
        ≡ (1 ∷ []) ++ (1 ∷ []) ++ replicate 9600 0)
silence_hoarded_example =
    silence_hoarded never (λ vad frame. refl) (replicate 9600 0) detector (omega arith)
