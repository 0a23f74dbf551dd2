-- ===== src/Transcript/Names.antt =====
-- The names that `display_labels` of server/app/services/transcript_format.py gives to lines.
use mathlib.Core.Path.{subst}
use corella.Prelude.{
  ℕ, ◌≤◌, ◌≡◌, refl, ap, sym, ◌∙◌, Bool, true, false, not, ◌&&◌, some, List, [], ◌∷◌, map,
  if◌then◌else◌, is_some, All, drop, Text, text_eq, text_eq_iff, text_eq_refl, text_eq_comm, codes,
  nonempty, starts_with, arith, Bool-cases, Option-cases, inl, inr,
}
use corella.Transcript.{
  TranscriptSegment, CaptureMode, Key, same_key, lookup, str, speaker, a_digit, digits_to_end,
  is_anonymous, raw_of, needs_alias, key, display_labels,
}
use corella.Transcript.Decimal.{str-nonempty, str-injective, IsDigit, str-IsDigit}
use corella.Transcript.Table.{after, name, numbered_name, Named, labels-Named, after-IsNumbered}
use corella.Transcript.Aliases.{same_key_lem, same_key_refl, IsNumbered}

module _ (is_digit : ℕ → Bool) (owner_id : ℕ) (capture_mode : CaptureMode) where
  -- Should two lines have one name? Those that get an alias, if they have one key; and the others, if
  -- their own label is one.
  abbrev pub same_speaker : TranscriptSegment → TranscriptSegment → Bool
  same_speaker s t =
      if needs_alias is_digit owner_id capture_mode s
      then needs_alias is_digit owner_id capture_mode t
        && same_key (key is_digit owner_id capture_mode s) (key is_digit owner_id capture_mode t)
      else not (needs_alias is_digit owner_id capture_mode t)
        && text_eq (raw_of is_digit owner_id capture_mode s)
            (raw_of is_digit owner_id capture_mode t)

  module _ (ascii : (c : ℕ) → 48 ≤ c → c ≤ 57 → is_digit c ≡ true) where
    digits_end : (s : Text) → All IsDigit s → digits_to_end is_digit s ≡ true
    unfolding digits_to_end
    digits_end [] h = refl
    digits_end (c ∷ s) ((low, high), h) = rw (ascii c low high, digits_end s h) refl

    str-a_digit : (n : ℕ) → a_digit is_digit (str n) ≡ true
    str-a_digit n = first (str n) (str-nonempty n) (str-IsDigit n)
      where
        first : (s : Text) → nonempty s ≡ true → All IsDigit s → a_digit is_digit s ≡ true
        first [] h k = cc
        first (c ∷ s) h ((low, high), k) = ascii c low high

    speaker-is_anonymous : (n : ℕ) → is_anonymous is_digit (speaker n) ≡ true
    unfolding is_anonymous speaker drop starts_with
    speaker-is_anonymous n = rw (str-a_digit n, digits_end (str n) (str-IsDigit n)) refl

    speaker_numbers : (m n : ℕ) → text_eq (speaker m) (speaker n) ≡ true → m ≡ n
    unfolding speaker
    speaker_numbers m n h = str-injective m n ((text_eq_iff (str m) (str n)).0 h)

    not_me : (n : ℕ) → text_eq (speaker n) (codes "Me") ≡ false
    unfolding speaker
    not_me n = refl

    -- An alias is no label that a line keeps.
    alias_apart :
        (n : ℕ) (t : TranscriptSegment)
        → needs_alias is_digit owner_id capture_mode t ≡ false
        → text_eq (speaker n) (raw_of is_digit owner_id capture_mode t) ≡ false
    alias_apart n t plain =
        elim (Bool-cases (text_eq (speaker n) (raw_of is_digit owner_id capture_mode t))) [
          | inr other ↦ other
          | inl same ↦
              same
              ∙ contradiction (
                  subst (λ l. (not (text_eq l (codes "Me")) && is_anonymous is_digit l) ≡ false)
                    (sym
                      ((text_eq_iff (speaker n) (raw_of is_digit owner_id capture_mode t)).0 same))
                    plain)
        ]
      where
        contradiction :
            (not (text_eq (speaker n) (codes "Me")) && is_anonymous is_digit (speaker n)) ≡ false
            → true ≡ false
        contradiction h = sym (rw (not_me n, speaker-is_anonymous n) refl) ∙ h

    module _ (table : List (Key × ℕ)) (numbered_to : ℕ) (v : IsNumbered table numbered_to) where
      numbers_agree :
          (j k : Key) (m p : ℕ)
          → lookup j table ≡ some m
          → lookup k table ≡ some p
          → text_eq (speaker m) (speaker p) ≡ same_key j k
      numbers_agree j k m p h h' = elim (Bool-cases (same_key j k)) [
        | inl same ↦ rw same (
            subst (λ q. text_eq (speaker m) (speaker q) ≡ true) (one_number (same_key_lem j k same))
              (text_eq_refl (speaker m)))
        | inr other ↦ elim (Bool-cases (text_eq (speaker m) (speaker p))) [
          | inr apart ↦ apart ∙ sym other
          | inl hit ↦
              hit
              ∙ sym (
                  one_key (
                    v.once j k m h
                      (subst (λ q. lookup k table ≡ some q) (sym (speaker_numbers m p hit)) h')))
        ]
      ]
        where
          one_number : j ≡ k → m ≡ p
          one_number e = ground (arith, ap (λ i. lookup i table) e)

          one_key : j ≡ k → same_key j k ≡ true
          one_key e = subst (λ i. same_key j i ≡ true) e (same_key_refl j)

      number_of :
          (s : TranscriptSegment)
          → needs_alias is_digit owner_id capture_mode s ≡ true
          → (needs_alias is_digit owner_id capture_mode s
              && not (is_some (lookup (key is_digit owner_id capture_mode s) table)))
            ≡ false
          → (m : ℕ) × (lookup (key is_digit owner_id capture_mode s) table ≡ some m)
      number_of s alias h =
          elim (Option-cases (lookup (key is_digit owner_id capture_mode s) table)) [
            | inl absent ↦ absurd (
                true_or_false (
                  sym (ap (λ o. true && not (is_some o)) absent)
                  ∙ sym (
                      ap
                        (λ b.
                          b && not (is_some (lookup (key is_digit owner_id capture_mode s) table)))
                        alias)
                  ∙ h))
            | inr found ↦ found
          ]
        where
          true_or_false : true ≡ false → ⊥
          true_or_false e = cc

      name_agrees :
          (s t : TranscriptSegment)
          → (needs_alias is_digit owner_id capture_mode s
              && not (is_some (lookup (key is_digit owner_id capture_mode s) table)))
            ≡ false
          → (needs_alias is_digit owner_id capture_mode t
              && not (is_some (lookup (key is_digit owner_id capture_mode t) table)))
            ≡ false
          → text_eq
              (name is_digit owner_id capture_mode table s)
              (name is_digit owner_id capture_mode table t)
            ≡ same_speaker s t
      unfolding name numbered_name
      name_agrees s t h h' = elim (Bool-cases (needs_alias is_digit owner_id capture_mode s)) [
        | inl alias ↦
            let (m, hit) = number_of s alias h in
            elim (Bool-cases (needs_alias is_digit owner_id capture_mode t)) [
              | inl alias' ↦
                  let (p, hit') = number_of t alias' h' in
                  rw (alias, alias', hit, hit') (numbers_agree _ _ m p hit hit')
              | inr plain ↦ rw (alias, plain, hit) (alias_apart m t plain)
            ]
        | inr plain ↦ elim (Bool-cases (needs_alias is_digit owner_id capture_mode t)) [
          | inl alias ↦
              let (p, hit) = number_of t alias h' in
              rw (plain, alias, hit)
                (text_eq_comm (raw_of is_digit owner_id capture_mode s) (speaker p)
                  ∙ alias_apart p s plain)
          | inr plain' ↦ rw (plain, plain') refl
        ]
      ]

    -- One line against the others, and each line against the others.
    agrees_with :
        (table : List (Key × ℕ)) (n : ℕ)
        → IsNumbered table n
        → (s : TranscriptSegment)
        → (needs_alias is_digit owner_id capture_mode s
            && not (is_some (lookup (key is_digit owner_id capture_mode s) table)))
          ≡ false
        → (segs : List TranscriptSegment)
        → All
            (λ t.
              (needs_alias is_digit owner_id capture_mode t
                && not (is_some (lookup (key is_digit owner_id capture_mode t) table)))
              ≡ false)
            segs
        → All
            (λ t.
              text_eq
                (name is_digit owner_id capture_mode table s)
                (name is_digit owner_id capture_mode table t)
              ≡ same_speaker s t)
            segs
    agrees_with table n v s h [] hs = tt
    agrees_with table n v s h (t ∷ ts) (k, ks) =
        (name_agrees table n v s t h k, agrees_with table n v s h ts ks)

    all_agree :
        (table : List (Key × ℕ)) (n : ℕ)
        → IsNumbered table n
        → (segs : List TranscriptSegment)
        → All
            (λ t.
              (needs_alias is_digit owner_id capture_mode t
                && not (is_some (lookup (key is_digit owner_id capture_mode t) table)))
              ≡ false)
            segs
        → (some_of : List TranscriptSegment)
        → All
            (λ t.
              (needs_alias is_digit owner_id capture_mode t
                && not (is_some (lookup (key is_digit owner_id capture_mode t) table)))
              ≡ false)
            some_of
        → All
            (λ s.
              All
                (λ t.
                  text_eq
                    (name is_digit owner_id capture_mode table s)
                    (name is_digit owner_id capture_mode table t)
                  ≡ same_speaker s t)
                segs)
            some_of
    all_agree table n v segs hs [] ks = tt
    all_agree table n v segs hs (s ∷ ss) (k, ks) =
        (agrees_with table n v s k segs hs, all_agree table n v segs hs ss ks)

    -- The names of the lines of a transcript are a function of the lines, and two lines have one name just
    -- when they should: two that get an alias, if they have one speaker, or one channel and label where no
    -- speaker is known; two that keep their own label, if it is the same; and an alias is nobody's own
    -- label. The ASCII digits are digits to `re`.
    pub display_labels-agree :
        (segs : List TranscriptSegment)
        → (name_of : TranscriptSegment → Text) × (display_labels is_digit owner_id capture_mode segs
            ≡ map name_of segs)
          × All (λ s. All (λ t. text_eq (name_of s) (name_of t) ≡ same_speaker s t) segs) segs
    unfolding display_labels
    display_labels-agree segs =
        let table : List (Key × ℕ) = after is_digit owner_id capture_mode [] 1 segs in
        let named : Named is_digit owner_id capture_mode [] 1 segs table =
          labels-Named is_digit owner_id capture_mode [] 1 segs in
        let (n, v) =
          after-IsNumbered is_digit owner_id capture_mode [] 1 segs
            (record { below = λ k m h. cc; once = λ j k m h h'. cc }) in
        (
          name is_digit owner_id capture_mode table,
          named.labels,
          all_agree table n v segs named.listed segs named.listed,
        )
