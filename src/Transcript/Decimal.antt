-- ===== src/Transcript/Decimal.antt =====
-- The numbers in the names of server/app/services/transcript_format.py: no two have one text.
use corella.Prelude.{
  ℕ, zero, suc, ◌+◌, ◌-◌, ◌*◌, ◌/◌, ◌%◌, ◌≤◌, ◌<◌, ◌≡◌, refl, ap, sym, ◌∙◌, true, [], ◌∷◌, ◌++◌,
  ltb, All, All-append, Text, nonempty, arith, Bool-cases, inl, inr,
}
use corella.Transcript.{digits, str}

-- What a decimal text stands for.
abbrev pub value_from : ℕ → Text → ℕ
value_from v [] = v
value_from v (c ∷ s) = value_from (v * 10 + (c - 48)) s

value-snoc :
    (v : ℕ) (s : Text) (c : ℕ) → value_from v (s ++ c ∷ []) ≡ value_from v s * 10 + (c - 48)
value-snoc v [] c = refl
value-snoc v (d ∷ s) c = value-snoc (v * 10 + (d - 48)) s c

pub value-digits : (fuel n : ℕ) → n < fuel → value_from 0 (digits fuel n) ≡ n
unfolding digits
value-digits zero n h = absurd (omega arith)
value-digits (suc fuel) n h = elim (Bool-cases (ltb n 10)) [
  | inl one ↦ rw one (omega arith)
  | inr more ↦
      rw (more, value-snoc 0 (digits fuel (n / 10)) (48 + n % 10))
        (ground (arith, value-digits fuel (n / 10)))
]

pub str-injective : (m n : ℕ) → str m ≡ str n → m ≡ n
unfolding str
str-injective m n h =
    sym (value-digits (m + 1) m (omega arith))
    ∙ ap (value_from 0) h
    ∙ value-digits (n + 1) n (omega arith)

abbrev pub IsDigit : ℕ → Type 0
IsDigit c = (48 ≤ c) × (c ≤ 57)

digits-IsDigit : (fuel n : ℕ) → All IsDigit (digits fuel n)
unfolding digits
digits-IsDigit zero n = tt
digits-IsDigit (suc fuel) n = elim (Bool-cases (ltb n 10)) [
  | inl one ↦ rw one ((omega arith, ground arith), tt)
  | inr more ↦ rw more (
      All-append IsDigit (digits fuel (n / 10)) ((48 + n % 10) ∷ []) (digits-IsDigit fuel (n / 10))
        ((omega arith, omega arith), tt))
]

pub str-IsDigit : (n : ℕ) → All IsDigit (str n)
unfolding str
str-IsDigit n = digits-IsDigit (n + 1) n

digits-nonempty : (fuel n : ℕ) → 1 ≤ fuel → nonempty (digits fuel n) ≡ true
unfolding digits
digits-nonempty zero n h = absurd (omega arith)
digits-nonempty (suc fuel) n h = elim (Bool-cases (ltb n 10)) [
  | inl one ↦ rw one refl
  | inr more ↦ rw more (snoc-nonempty (digits fuel (n / 10)) (48 + n % 10))
]
  where
    snoc-nonempty : (s : Text) (c : ℕ) → nonempty (s ++ c ∷ []) ≡ true
    snoc-nonempty [] c = refl
    snoc-nonempty (d ∷ s) c = refl

pub str-nonempty : (n : ℕ) → nonempty (str n) ≡ true
unfolding str
str-nonempty n = digits-nonempty (n + 1) n (omega arith)

pub value-str : (n : ℕ) → value_from 0 (str n) ≡ n
unfolding str
value-str n = value-digits (n + 1) n (omega arith)
