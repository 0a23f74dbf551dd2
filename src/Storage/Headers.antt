-- ===== src/Storage/Headers.antt =====
-- The headers that browsers send, read back: `bytes=first-last`, and `bytes=-count`.
use mathlib.Core.List.{reverse, reverse_aux, reverse-reverse}
use corella.Prelude.{
  ℕ, ◌+◌, ◌-◌, ◌*◌, ◌≤◌, ◌<◌, min, ◌≡◌, refl, ap, ◌∙◌, true, false, ◌||◌, some, List, [], ◌∷◌, ◌++◌,
  ◌==◌, length, tally, All, Text, codes, nonempty, strip, lstrip, is_space, arith, pos, ltb_ℤ,
  min_ℤ, if-elim,
}
use corella.Storage.{
  partial, serve, end_of, start_of, last_byte, respond, iter_file, int, signed, unsigned,
  scan_digits, is_digit, max_str_digits, range_spec, partition,
}
use corella.Transcript.{str}
use corella.Transcript.Decimal.{IsDigit, str-IsDigit, str-nonempty, value_from, value-str}

partition-append :
    (d : ℕ) (s t : Text) → All (λ c. (c == d) ≡ false) s → partition d (s ++ d ∷ t) ≡ (s, t)
partition-append d [] t h = ground arith
partition-append d (c ∷ s) t h =
    rw h.0 (ap (λ (r : Text × Text). (c ∷ r.0, r.1)) (partition-append d s t h.1))

IsDigit-dash : (s : Text) → All IsDigit s → All (λ c. (c == b'-') ≡ false) s
IsDigit-dash [] h = tt
IsDigit-dash (c ∷ s) h = (ground arith, IsDigit-dash s h.1)

scan_digits-value :
    (s : Text) (v : ℕ) → All IsDigit s → scan_digits s v true ≡ some (value_from v s)
unfolding scan_digits
scan_digits-value [] v h = refl
scan_digits-value (c ∷ s) v h = ground (arith, scan_digits-value s (v * 10 + (c - 48)) h.1)

All-reverse_aux : (s t : Text) → All IsDigit s → All IsDigit t → All IsDigit (reverse_aux s t)
All-reverse_aux [] t h k = k
All-reverse_aux (c ∷ s) t h k = All-reverse_aux s (c ∷ t) h.1 (h.0, k)

lstrip-IsDigit : (s : Text) → All IsDigit s → lstrip s ≡ s
unfolding lstrip is_space
lstrip-IsDigit [] h = refl
lstrip-IsDigit (c ∷ s) h = ground arith

strip-IsDigit : (s : Text) → All IsDigit s → strip s ≡ s
unfolding strip
strip-IsDigit s h =
    rw (lstrip-IsDigit s h, lstrip-IsDigit (reverse s) (All-reverse_aux s [] h tt))
      (reverse-reverse s)

tally-le-length : (s : Text) → tally is_digit s ≤ length s
unfolding tally
tally-le-length [] = omega arith
tally-le-length (c ∷ s) = ground (arith, tally-le-length s)

unsigned-value :
    (s : Text)
    → nonempty s ≡ true
    → All IsDigit s
    → length s ≤ max_str_digits
    → unsigned s ≡ some (value_from 0 s)
unfolding unsigned scan_digits
unsigned-value [] n h k = cc
unsigned-value (c ∷ s) n h k =
    ground (arith, tally-le-length (c ∷ s), scan_digits-value s (0 * 10 + (c - 48)) h.1)

-- Where a number is not longer than Python reads, its digits are read as the number.
pub int-str : (n : ℕ) → length (str n) ≤ max_str_digits → int (str n) ≡ some (pos n)
unfolding int
int-str n h =
    rw (strip-IsDigit (str n) (str-IsDigit n))
      (digits-signed (str n) (str-nonempty n) (str-IsDigit n) h (value-str n))
  where
    digits-signed :
        (s : Text)
        → nonempty s ≡ true
        → All IsDigit s
        → length s ≤ max_str_digits
        → value_from 0 s ≡ n
        → signed s ≡ some (pos n)
    digits-signed [] e d k v = cc
    digits-signed (c ∷ s) e d k v = ground (arith, d.0, unsigned-value (c ∷ s) e d k)

-- `bytes=first-last`
abbrev pub range_header : Text → Text → Text
range_header first last = codes "bytes=" ++ first ++ b'-' ∷ last

range_spec-header :
    (first : ℕ) (last : Text) → range_spec (range_header (str first) last) ≡ (str first, last)
range_spec-header first last =
    partition-append b'-' (str first) last (IsDigit-dash (str first) (str-IsDigit first))

start_of-str : (n : ℕ) → length (str n) ≤ max_str_digits → start_of (str n) ≡ some (pos n)
start_of-str n h = rw (str-nonempty n) (int-str n h)

end_of-str :
    (n size : ℕ)
    → length (str n) ≤ max_str_digits
    → end_of (str n) size ≡ some (min_ℤ (pos n) (last_byte size))
end_of-str n size h = rw (str-nonempty n, int-str n h) refl

min-last_byte :
    (last size : ℕ) → 0 < size → min_ℤ (pos last) (last_byte size) ≡ pos (min last (size - 1))
min-last_byte last size h = ground arith

serve_within :
    (s e : ℕ) (file : List ℕ)
    → s ≤ e
    → serve true (pos s, pos e) file
      ≡ partial (pos s) (pos e) (length file) (pos (e + 1 - s)) (iter_file file s (pos e))
unfolding serve
serve_within s e file h =
    if-elim
      (λ r. r ≡ partial (pos s) (pos e) (length file) (pos (e + 1 - s)) (iter_file file s (pos e)))
      (ltb_ℤ (pos s) (pos 0) || ltb_ℤ (pos e) (pos s)) _ _ (λ refused. absurd (ground arith))
      (λ fits.
        ap (λ n. partial (pos s) (pos e) (length file) n (iter_file file s (pos e))) (ground arith))

-- A range that a client writes with two numbers, the first within the file and not above the second,
-- each of no more digits than Python reads, is answered with the bytes from the one to the other, or to
-- the last byte where the second is beyond it.
pub respond-range_header :
    (file : List ℕ) (first last : ℕ)
    → length (str first) ≤ max_str_digits
    → length (str last) ≤ max_str_digits
    → first ≤ last
    → first < length file
    → respond file (some (range_header (str first) (str last)))
      ≡ partial
          (pos first)
          (pos (min last (length file - 1)))
          (length file)
          (pos (min last (length file - 1) + 1 - first))
          (iter_file file first (pos (min last (length file - 1))))
unfolding respond
respond-range_header file first last h k ordered low =
    rw
      (
        range_spec-header first (str last),
        start_of-str first h,
        end_of-str last (length file) k,
        min-last_byte last (length file) (omega arith),
      )
      (serve_within first (min last (length file - 1)) file (omega arith))

-- A suffix range, which asks for the last `count` bytes, is read as a range from the first byte on to the
-- byte at `count`: for every count and every file that is longer, the answer is its first `count` + 1
-- bytes.
pub respond_suffix :
    (file : List ℕ) (count : ℕ)
    → length (str count) ≤ max_str_digits
    → count < length file
    → respond file (some (range_header [] (str count)))
      ≡ partial (pos 0) (pos count) (length file) (pos (count + 1)) (iter_file file 0 (pos count))
unfolding respond
respond_suffix file count h low =
    rw (end_of-str count (length file) h, min-last_byte count (length file) (omega arith))
      (serve_within 0 (min count (length file - 1)) file (omega arith)
        ∙ ap
            (λ e.
              partial (pos 0) (pos e) (length file) (pos (e + 1 - 0)) (iter_file file 0 (pos e)))
            (omega arith)
        ∙ ap (λ n. partial (pos 0) (pos count) (length file) (pos n) (iter_file file 0 (pos count)))
            (omega arith))
