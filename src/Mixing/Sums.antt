-- ===== src/Mixing/Sums.antt =====
-- What `mix_channel_recordings` of server/app/services/audio/mixing.py makes of its chunks.
use mathlib.Core.Path.{subst}
use corella.Prelude.{
  ℕ, ◌+◌, ◌≤◌, ◌<◌, ◌≡◌, refl, sym, ap, ◌∙◌, arith, max, Bool, true, false, Option, none, some,
  List, [], ◌∷◌, map, if◌then◌else◌, is_some, length, any, all, Bool-cases, inl, inr, concat,
  replicate, All, ℤ, pos, ◌+ℤ◌, +ℤ_assoc, +ℤ-zero, +ℤ_comm,
}
use corella.Vad.{Bytes}
use corella.Mixing.{
  then_do, frombuffer, tobytes, clip, add_from, has_chunks, total_ms, total_samples, overlay,
  mix_channel_recordings,
}
use corella.Mixing.Samples.{
  IsWithin, IsWithin-sum, frombuffer-tobytes, get_elem?, sample, covers, length-add_from,
  get_elem-map, get_elem-replicate, length-replicate, add_from-elem, place-within,
  frombuffer-IsWithin, sample-IsWithin,
}

-- Bytes that make whole samples.
abbrev pub is_whole : Bytes → Bool
is_whole [] = true
is_whole (b ∷ []) = false
is_whole (lo ∷ hi ∷ rest) = is_whole rest

-- The samples of whole bytes.
abbrev pub samples_of : Option (List ℤ) → List ℤ
samples_of none = []
samples_of (some xs) = xs

is_some-then_do {ℓ κ} :
    {A : Type ℓ} {B : Type κ} (o : Option A) (f : A → B)
    → is_some (then_do o λ a. some (f a)) ≡ is_some o
is_some-then_do none f = refl
is_some-then_do (some a) f = refl

frombuffer-is_some : (chunk : Bytes) → is_some (frombuffer chunk) ≡ is_whole chunk
unfolding frombuffer
frombuffer-is_some [] = refl
frombuffer-is_some (b ∷ []) = refl
frombuffer-is_some (lo ∷ hi ∷ rest) = is_some-then_do (frombuffer rest) _ ∙ frombuffer-is_some rest

frombuffer-some :
    (chunk : Bytes)
    → is_whole chunk ≡ true
    → frombuffer chunk ≡ some (samples_of (frombuffer chunk))
frombuffer-some chunk h = ground (arith, frombuffer-is_some chunk)

frombuffer-none : (chunk : Bytes) → is_whole chunk ≡ false → frombuffer chunk ≡ none
frombuffer-none chunk h = ground (arith, frombuffer-is_some chunk)

both_true : (a b : Bool) → (if a then b else false) ≡ true → (a ≡ true) × (b ≡ true)
both_true true b h = (refl, h)
both_true false b h = cc

-- The sample of a track at a position, where there is a track and it reaches that far.
abbrev pub track_at : ℕ → Option (List ℤ) → Option ℤ
track_at i track = then_do track λ xs. get_elem? xs i

abbrev pub heard_at : ℕ → Option Bytes → Option ℤ
heard_at i mixed = then_do mixed λ pcm. track_at i (frombuffer pcm)

module _ (duration_ms sample_at : ℕ → ℕ) where
  -- The sum of what the chunks have at a position, and the number of the chunks that reach over it.
  abbrev pub sum_at : ℕ → List (ℕ × Bytes) → ℤ
  sum_at i [] = pos 0
  sum_at i ((offset, chunk) ∷ chunks) =
      sample i (sample_at offset) (samples_of (frombuffer chunk)) +ℤ sum_at i chunks

  abbrev pub cover_at : ℕ → List (ℕ × Bytes) → ℕ
  cover_at i [] = 0
  cover_at i ((offset, chunk) ∷ chunks) =
      covers i (sample_at offset) (samples_of (frombuffer chunk)) + cover_at i chunks

  total_ms-ge : (chunks : List (ℕ × Bytes)) (t : ℕ) → t ≤ total_ms duration_ms sample_at chunks t
  unfolding total_ms
  total_ms-ge [] t = omega arith
  total_ms-ge ((offset, chunk) ∷ chunks) t =
      omega (arith, total_ms-ge chunks (max t (offset + duration_ms (length chunk))))

  offsets-le :
      (chunks : List (ℕ × Bytes)) (t : ℕ)
      → All (λ c. c.0 ≤ total_ms duration_ms sample_at chunks t) chunks
  unfolding total_ms
  offsets-le [] t = tt
  offsets-le ((offset, chunk) ∷ chunks) t = (
    omega (arith, total_ms-ge chunks (max t (offset + duration_ms (length chunk)))),
    offsets-le chunks (max t (offset + duration_ms (length chunk))),
  )

  starts-le :
      (n t : ℕ) (chunks : List (ℕ × Bytes))
      → ((a b : ℕ) → a ≤ b → sample_at a ≤ sample_at b)
      → sample_at t ≤ n
      → All (λ c. c.0 ≤ t) chunks
      → All (λ c. sample_at c.0 ≤ n) chunks
  starts-le n t [] mono h b = tt
  starts-le n t ((offset, chunk) ∷ chunks) mono h b =
      (omega (arith, mono offset t b.0), starts-le n t chunks mono h b.1)

  overlay-step :
      (offset : ℕ) (chunk : Bytes) (chunks : List (ℕ × Bytes)) (m xs : List ℤ)
      → frombuffer chunk ≡ some xs
      → sample_at offset ≤ length m
      → overlay duration_ms sample_at ((offset, chunk) ∷ chunks) m
        ≡ overlay duration_ms sample_at chunks (add_from (sample_at offset) xs m)
  unfolding overlay
  overlay-step offset chunk chunks m xs e h = rw (e, place-within (sample_at offset) xs m h) refl

  still_within :
      (start : ℕ) (xs m : List ℤ) (chunks : List (ℕ × Bytes))
      → All (λ c. sample_at c.0 ≤ length m) chunks
      → All (λ c. sample_at c.0 ≤ length (add_from start xs m)) chunks
  still_within start xs m chunks h =
      subst (λ n. All (λ c. sample_at c.0 ≤ n) chunks) (sym (length-add_from start xs m)) h

  overlay-whole :
      (chunks : List (ℕ × Bytes)) (m : List ℤ)
      → All (λ c. sample_at c.0 ≤ length m) chunks
      → is_some (overlay duration_ms sample_at chunks m) ≡ all (λ c. is_whole c.1) chunks
  unfolding overlay all
  overlay-whole [] m h = refl
  overlay-whole ((offset, chunk) ∷ chunks) m h = elim (Bool-cases (is_whole chunk)) [
    | inl w ↦
        let xs : List ℤ = samples_of (frombuffer chunk) in
        rw w (
          ap is_some (overlay-step offset chunk chunks m xs (frombuffer-some chunk w) h.0)
          ∙ overlay-whole chunks (add_from (sample_at offset) xs m)
              (still_within (sample_at offset) xs m chunks h.1))
    | inr w ↦ rw (frombuffer-none chunk w, w) refl
  ]

  overlay-sum :
      (chunks : List (ℕ × Bytes)) (m : List ℤ) (i k : ℕ) (a : ℤ)
      → All (λ c. sample_at c.0 ≤ length m) chunks
      → all (λ c. is_whole c.1) chunks ≡ true
      → get_elem? m i ≡ some a
      → IsWithin k a
      → k + cover_at i chunks ≤ 65535
      → track_at i (overlay duration_ms sample_at chunks m) ≡ some (a +ℤ sum_at i chunks)
  unfolding overlay all
  overlay-sum [] m i k a h w e p q = e ∙ ap some (sym (+ℤ-zero a))
  overlay-sum ((offset, chunk) ∷ chunks) m i k a h w e p q =
      let start : ℕ = sample_at offset in
      let xs : List ℤ = samples_of (frombuffer chunk) in
      let c : ℕ = covers i start xs in
      let whole = both_true (is_whole chunk) (all (λ c. is_whole c.1) chunks) w in
      let decoded : frombuffer chunk ≡ some xs = frombuffer-some chunk whole.0 in
      let one : IsWithin c (sample i start xs) =
        sample-IsWithin i start xs (frombuffer-IsWithin chunk xs decoded) in
      let more : IsWithin (k + c) (a +ℤ sample i start xs) =
        IsWithin-sum k c a (sample i start xs) p one in
      let room : IsWithin 65535 (a +ℤ sample i start xs) =
        (omega (arith, more.0), omega (arith, more.1)) in
      ap (track_at i) (overlay-step offset chunk chunks m xs decoded h.0)
      ∙ overlay-sum chunks (add_from start xs m) i (k + c) (a +ℤ sample i start xs)
          (still_within start xs m chunks h.1) whole.1 (add_from-elem start xs m i a e room) more
          (omega arith)
      ∙ ap some (+ℤ_assoc a (sample i start xs) (sum_at i chunks))

  starts_within :
      ((a b : ℕ) → a ≤ b → sample_at a ≤ sample_at b)
      → (chunks : List (ℕ × Bytes))
      → All
          (λ c.
            sample_at c.0
            ≤ length (replicate {A = ℤ} (total_samples duration_ms sample_at chunks) (pos 0)))
          chunks
  unfolding total_samples
  starts_within mono chunks =
      subst (λ n. All (λ c. sample_at c.0 ≤ n) chunks)
        (sym (length-replicate (total_samples duration_ms sample_at chunks) (pos 0)))
        (starts-le (total_samples duration_ms sample_at chunks)
          (total_ms duration_ms sample_at chunks 0) chunks mono (omega arith) (offsets-le chunks 0))

no_chunks :
    (recordings : List (List (ℕ × Bytes)))
    → any has_chunks recordings ≡ false
    → concat recordings ≡ []
unfolding any
no_chunks [] h = refl
no_chunks ([] ∷ recordings) h = no_chunks recordings h
no_chunks ((c ∷ chunks) ∷ recordings) h = cc

heard_at-track :
    (i : ℕ) (track : Option (List ℤ)) (v : ℤ)
    → track_at i track ≡ some v
    → heard_at i (then_do track λ mixed. some (tobytes (map clip mixed))) ≡ some (clip v)
heard_at-track i none v h = cc
heard_at-track i (some xs) v h =
    ap (track_at i) (frombuffer-tobytes xs) ∙ get_elem-map clip xs i v h

-- Where a later time is no earlier sample: a mix is made exactly if every chunk of every channel is a
-- whole number of samples. One odd chunk raises, whatever the others are.
pub mix-is_some :
    (duration_ms sample_at : ℕ → ℕ) (recordings : List (List (ℕ × Bytes)))
    → ((a b : ℕ) → a ≤ b → sample_at a ≤ sample_at b)
    → is_some (mix_channel_recordings duration_ms sample_at recordings)
      ≡ all (λ (c : ℕ × Bytes). is_whole c.1) (concat recordings)
unfolding mix_channel_recordings all
mix-is_some duration_ms sample_at recordings mono = elim (Bool-cases (any has_chunks recordings)) [
  | inl audio ↦ rw audio (
      is_some-then_do (overlay duration_ms sample_at (concat recordings) _) _
      ∙ overlay-whole duration_ms sample_at (concat recordings) _
          (starts_within duration_ms sample_at mono (concat recordings)))
  | inr silent ↦ rw (silent, no_chunks recordings silent) refl
]

-- Where a later time is no earlier sample, there is audio, and every chunk is a whole number of samples: at
-- each position of the track that at most 65535 chunks reach over, the mix has the sum of what the chunks
-- of all the channels have there, cut to the range of 16 bits. Nothing wraps around, and the bytes of the
-- mix are read back as these samples.
pub mix-sums :
    (duration_ms sample_at : ℕ → ℕ) (recordings : List (List (ℕ × Bytes))) (i : ℕ)
    → ((a b : ℕ) → a ≤ b → sample_at a ≤ sample_at b)
    → any has_chunks recordings ≡ true
    → all (λ (c : ℕ × Bytes). is_whole c.1) (concat recordings) ≡ true
    → i < total_samples duration_ms sample_at (concat recordings)
    → cover_at duration_ms sample_at i (concat recordings) ≤ 65535
    → heard_at i (mix_channel_recordings duration_ms sample_at recordings)
      ≡ some (clip (sum_at duration_ms sample_at i (concat recordings)))
unfolding mix_channel_recordings
mix-sums duration_ms sample_at recordings i mono audio whole h few =
    let chunks : List (ℕ × Bytes) = concat recordings in
    let sum : ℤ = sum_at duration_ms sample_at i chunks in
    let mixed =
      overlay-sum duration_ms sample_at chunks _ i 0 (pos 0)
        (starts_within duration_ms sample_at mono chunks) whole
        (get_elem-replicate (total_samples duration_ms sample_at chunks) i (pos 0) h)
        (omega arith, omega arith) (omega (arith, few)) in
    rw audio (heard_at-track i _ sum (mixed ∙ ap some (+ℤ_comm (pos 0) sum ∙ +ℤ-zero sum)))
