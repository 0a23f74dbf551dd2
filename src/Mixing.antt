-- ===== src/Mixing.antt =====
-- server/app/services/audio/mixing.py: the recordings of the channels, chunks with the times of their
-- arrival, laid over each other into one track. numpy's int16 and int32 are written out, with their
-- wrap-around. `duration_ms` and `sample_at` are the two conversions that divide floats: the bytes of a
-- chunk to milliseconds, and milliseconds to samples. Where numpy raises, the answer is `none`.
pub mod Samples
pub mod Sums
mod Tests
use corella.Prelude.{
  ℕ, zero, suc, ◌+◌, ◌-◌, ◌*◌, ◌/◌, ◌%◌, ◌^◌, max, Bool, true, false, not, ◌&&◌, Option, none, some,
  List, [], ◌∷◌, ◌++◌, map, ltb, leb, if◌then◌else◌, length, any, tally, concat, take, drop,
  replicate, ℤ, pos, negsuc, ◌+ℤ◌, pos_part, neg_part, ltb_ℤ,
}
use corella.Vad.{Bytes}

-- `SAMPLE_RATE`
abbrev pub sample_rate : ℕ
sample_rate = 16000

abbrev pub then_do {ℓ κ} : {A : Type ℓ} {B : Type κ} → Option A → (A → Option B) → Option B
then_do none f = none
then_do (some a) f = f a

-- The number that 16 or 32 bits stand for, and back.
abbrev pub signed16 : ℕ → ℤ
signed16 w = if ltb w (2 ^ 15) then pos w else negsuc (2 ^ 16 - 1 - w)

abbrev pub word16 : ℤ → ℕ
word16 (pos n) = n % 2 ^ 16
word16 (negsuc n) = 2 ^ 16 - 1 - n % 2 ^ 16

abbrev pub signed32 : ℕ → ℤ
signed32 w = if ltb w (2 ^ 31) then pos w else negsuc (2 ^ 32 - 1 - w)

abbrev pub word32 : ℤ → ℕ
word32 (pos n) = n % 2 ^ 32
word32 (negsuc n) = 2 ^ 32 - 1 - n % 2 ^ 32

unfoldable pub add32 : ℤ → ℤ → ℤ
unfolding ◌+ℤ◌
add32 a b = signed32 (word32 (a +ℤ b))

-- `np.frombuffer(chunk, dtype=np.int16)`, a ValueError where the bytes are odd in number.
unfoldable pub frombuffer : Bytes → Option (List ℤ)
frombuffer [] = some []
frombuffer (b ∷ []) = none
frombuffer (lo ∷ hi ∷ rest) =
    then_do (frombuffer rest) λ xs. some (signed16 ((lo + hi * 256) % 2 ^ 16) ∷ xs)

-- `.astype(np.int16).tobytes()`
unfoldable pub tobytes : List ℤ → Bytes
tobytes [] = []
tobytes (x ∷ xs) = word16 x % 256 ∷ word16 x / 256 ∷ tobytes xs

-- `np.clip(mixed, -32768, 32767)`, for one sample.
unfoldable pub clip : ℤ → ℤ
clip x =
    if ltb_ℤ x (negsuc 32767) then negsuc 32767 else if ltb_ℤ (pos 32767) x then pos 32767 else x

-- The samples added to those from a position on.
unfoldable pub add_from : ℕ → List ℤ → List ℤ → List ℤ
unfolding add32
add_from start samples [] = []
add_from (suc start) samples (m ∷ mixed) = m ∷ add_from start samples mixed
add_from zero [] (m ∷ mixed) = m ∷ mixed
add_from zero (x ∷ samples) (m ∷ mixed) = add32 m x ∷ add_from zero samples mixed

-- `mixed[start:end] += samples` with the test of `end`. A start behind the end makes the length of the
-- cut negative, which counts from the back, and the sum has no place: numpy takes one sample or none.
unfoldable pub place : ℕ → List ℤ → List ℤ → Option (List ℤ)
unfolding add_from
place start samples mixed =
    if ltb (length mixed) (start + length samples)
    then if ltb (length mixed) start
      then if leb (length samples - (start - length mixed)) 1 then some mixed else none
      else some (add_from start (take (length mixed - start) samples) mixed)
    else some (add_from start samples mixed)

abbrev pub has_chunks : List (ℕ × Bytes) → Bool
has_chunks [] = false
has_chunks (chunk ∷ chunks) = true

abbrev pub has_samples : List ℤ → Bool
has_samples [] = false
has_samples (x ∷ xs) = true

module _ (duration_ms sample_at : ℕ → ℕ) where
  -- The end of the last chunk.
  unfoldable pub total_ms : List (ℕ × Bytes) → ℕ → ℕ
  total_ms [] total = total
  total_ms ((offset, chunk) ∷ chunks) total =
      total_ms chunks (max total (offset + duration_ms (length chunk)))

  unfoldable pub total_samples : List (ℕ × Bytes) → ℕ
  unfolding total_ms
  total_samples chunks = sample_at (total_ms chunks 0) + sample_rate / 5

  unfoldable pub overlay : List (ℕ × Bytes) → List ℤ → Option (List ℤ)
  unfolding frombuffer place
  overlay [] mixed = some mixed
  overlay ((offset, chunk) ∷ chunks) mixed =
      then_do (frombuffer chunk)
        λ samples. then_do (place (sample_at offset) samples mixed) (overlay chunks)

  -- The recordings are the values of the dict, in order; a loop over its channels and over the chunks of
  -- each is one over all the chunks.
  unfoldable pub mix_channel_recordings : List (List (ℕ × Bytes)) → Option Bytes
  unfolding overlay total_samples tobytes clip
  mix_channel_recordings recordings =
      if not (any has_chunks recordings)
      then some []
      else then_do
          (overlay (concat recordings) (replicate (total_samples (concat recordings)) (pos 0)))
          λ mixed. some (tobytes (map clip mixed))

-- `np.abs(samples.astype(np.int32)) >= ceiling`
abbrev pub is_loud : ℕ → ℤ → Bool
is_loud ceiling x = leb ceiling (pos_part x + neg_part x)

unfoldable pub is_clipped : Bytes → ℕ → ℕ → Option Bool
unfolding frombuffer
is_clipped pcm min_clipped_samples ceiling = then_do (frombuffer pcm) λ samples.
    some (leb min_clipped_samples (tally (is_loud ceiling) samples) && has_samples samples)

-- `slice_pcm`
unfoldable pub slice_pcm : (ℕ → ℕ) → Bytes → ℕ → ℕ → Bytes
slice_pcm sample_at pcm start_ms duration_ms =
    let start_sample = sample_at start_ms in
    let end_sample = max start_sample (sample_at (start_ms + duration_ms)) in
    let end_byte = if ltb (end_sample * 2) (length pcm) then end_sample * 2 else length pcm in
    take (end_byte - start_sample * 2) (drop (start_sample * 2) pcm)
