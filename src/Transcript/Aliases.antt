-- ===== src/Transcript/Aliases.antt =====
-- The dictionary of server/app/services/transcript_format.py after a whole transcript.
use corella.Prelude.{
  ℕ, ◌+◌, ◌<◌, ◌≡◌, ◌⊎◌, refl, ap, sym, ◌∙◌, true, none, some, List, [], ◌∷◌, ◌++◌, text_eq_iff,
  arith, Bool-cases, Option-cases, inl, inr,
}
use corella.Transcript.{
  Channel, me, them, unknown, same_channel, Key, of_speaker, of_channel, same_key, lookup,
}

same_channel_lem : (c d : Channel) → same_channel c d ≡ true → c ≡ d
same_channel_lem me me h = refl
same_channel_lem them them h = refl
same_channel_lem unknown unknown h = refl
same_channel_lem me them h = cc
same_channel_lem me unknown h = cc
same_channel_lem them me h = cc
same_channel_lem them unknown h = cc
same_channel_lem unknown me h = cc
same_channel_lem unknown them h = cc

pub same_key_lem : (j k : Key) → same_key j k ≡ true → j ≡ k
same_key_lem (of_speaker a) (of_speaker b) h = ap of_speaker (ground arith)
same_key_lem (of_channel c s) (of_channel d t) h =
    ground (arith, same_channel_lem c d, text_eq_iff s t)
same_key_lem (of_speaker a) (of_channel d t) h = cc
same_key_lem (of_channel c s) (of_speaker b) h = cc

same_channel_refl : (c : Channel) → same_channel c c ≡ true
same_channel_refl me = refl
same_channel_refl them = refl
same_channel_refl unknown = refl

pub same_key_refl : (k : Key) → same_key k k ≡ true
same_key_refl (of_speaker a) = ground arith
same_key_refl (of_channel c s) = ground (arith, same_channel_refl c, text_eq_iff s s)

pub lookup-some :
    (k : Key) (al bs : List (Key × ℕ)) (n : ℕ) → lookup k al ≡ some n → lookup k (al ++ bs) ≡ some n
lookup-some k [] bs n h = cc
lookup-some k ((j, m) ∷ al) bs n h = ground (arith, lookup-some k al bs n)

pub lookup-none :
    (k : Key) (al bs : List (Key × ℕ)) → lookup k al ≡ none → lookup k (al ++ bs) ≡ lookup k bs
lookup-none k [] bs h = refl
lookup-none k ((j, m) ∷ al) bs h = ground (arith, lookup-none k al bs)

-- Numbers below the next one, and no number for two keys.
pub record IsNumbered (al : List (Key × ℕ)) (n : ℕ) : Type 0 where
  pub below : (k : Key) (m : ℕ) → lookup k al ≡ some m → m < n
  pub once : (j k : Key) (m : ℕ) → lookup j al ≡ some m → lookup k al ≡ some m → j ≡ k

one_more : (j k : Key) (n m : ℕ) → lookup j ((k, n) ∷ []) ≡ some m → (k ≡ j) × (n ≡ m)
one_more j k n m h = elim (Bool-cases (same_key k j)) [
  | inl same ↦ (same_key_lem k j same, ground arith)
  | inr other ↦ absurd (ground arith)
]

pub grown-IsNumbered :
    (al : List (Key × ℕ)) (n : ℕ) (k : Key)
    → IsNumbered al n
    → IsNumbered (al ++ (k, n) ∷ []) (n + 1)
grown-IsNumbered al n k v = record { below = below; once = once }
  where
    in_or_new :
        (j : Key) (m : ℕ)
        → lookup j (al ++ (k, n) ∷ []) ≡ some m
        → (lookup j al ≡ some m) ⊎ ((k ≡ j) × (n ≡ m))
    in_or_new j m h = elim (Option-cases (lookup j al)) [
      | inl absent ↦ inr (one_more j k n m (sym (lookup-none j al ((k, n) ∷ []) absent) ∙ h))
      | inr (p, found) ↦ inl (found ∙ sym (lookup-some j al ((k, n) ∷ []) p found) ∙ h)
    ]

    below : (j : Key) (m : ℕ) → lookup j (al ++ (k, n) ∷ []) ≡ some m → m < n + 1
    below j m h = elim (in_or_new j m h) [
      | inl old ↦ omega (arith, v.below j m old)
      | inr (same, number) ↦ omega arith
    ]

    once :
        (i j : Key) (m : ℕ)
        → lookup i (al ++ (k, n) ∷ []) ≡ some m
        → lookup j (al ++ (k, n) ∷ []) ≡ some m
        → i ≡ j
    once i j m h h' = elim (in_or_new i m h) [
      | inl old ↦ elim (in_or_new j m h') [
        | inl old' ↦ v.once i j m old old'
        | inr (same, number) ↦ absurd (omega (arith, v.below i m old))
      ]
      | inr (same, number) ↦ elim (in_or_new j m h') [
        | inl old' ↦ absurd (omega (arith, v.below j m old'))
        | inr (same', number') ↦ sym same ∙ same'
      ]
    ]
