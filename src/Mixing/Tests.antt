-- ===== src/Mixing/Tests.antt =====
-- Short recordings for server/app/services/audio/mixing.py: 16 samples a millisecond, and 32 bytes.
use corella.Prelude.{
  ℕ, ◌*◌, ◌/◌, ◌≤◌, ◌≡◌, refl, arith, true, some, List, [], ◌∷◌, is_some, all, any, tally, ◌+ℤ◌,
  false, concat, take, drop, replicate, pos,
}
use corella.Vad.{Bytes}
use corella.Mixing.{frombuffer, clip, total_samples, mix_channel_recordings, is_clipped, slice_pcm}
use corella.Mixing.Sums.{is_whole, sum_at, heard_at, mix-is_some, mix-sums}

abbrev whole_ms : ℕ → ℕ
whole_ms n = n / 32

abbrev sixteen : ℕ → ℕ
sixteen t = t * 16

sixteen_grows : (a b : ℕ) → a ≤ b → sixteen a ≤ sixteen b
sixteen_grows a b h = omega arith

-- 0x7000 on one channel and 0x2000 on the other, from the same time: too loud for 16 bits.
abbrev loud : List (List (ℕ × Bytes))
loud = ((0, 0 ∷ 0x70 ∷ 0 ∷ 0x70 ∷ []) ∷ []) ∷ ((0, 0 ∷ 0x20 ∷ []) ∷ []) ∷ []

mix-is_some_example :
    is_some (mix_channel_recordings whole_ms sixteen loud)
    ≡ all (λ (c : ℕ × Bytes). is_whole c.1) (concat loud)
mix-is_some_example = mix-is_some whole_ms sixteen loud sixteen_grows

-- Two samples, at the first of which the channels are too loud together.
mix-sums_example :
    heard_at 0 (mix_channel_recordings whole_ms sixteen loud)
    ≡ some (clip (sum_at whole_ms sixteen 0 (concat loud)))
unfolding total_samples any all frombuffer
mix-sums_example =
    mix-sums whole_ms sixteen loud 0 sixteen_grows refl refl (omega arith) (omega arith)

loud_clipped : clip (sum_at whole_ms sixteen 0 (concat loud)) ≡ pos 32767
unfolding clip frombuffer ◌+ℤ◌
loud_clipped = refl

quiet_at_one : clip (sum_at whole_ms sixteen 1 (concat loud)) ≡ pos 0x7000
unfolding clip frombuffer ◌+ℤ◌
quiet_at_one = refl

-- One odd chunk and there is no mix.
odd_chunk :
    is_some (
      mix_channel_recordings whole_ms sixteen
        (((0, 1 ∷ 2 ∷ []) ∷ (10, 1 ∷ 2 ∷ 3 ∷ []) ∷ []) ∷ [] ∷ []))
    ≡ false
unfolding all
odd_chunk =
    mix-is_some whole_ms sixteen (((0, 1 ∷ 2 ∷ []) ∷ (10, 1 ∷ 2 ∷ 3 ∷ []) ∷ []) ∷ [] ∷ [])
      sixteen_grows

three_clipped : is_clipped (0xff ∷ 0x7f ∷ 0 ∷ 0x80 ∷ 0xfe ∷ 0x7f ∷ 0 ∷ 0 ∷ []) 3 32760 ≡ some true
unfolding is_clipped tally
three_clipped = refl

slice_cut : slice_pcm sixteen (replicate 40 7) 1 5 ≡ replicate 8 7
unfolding slice_pcm take drop replicate
slice_cut = refl
