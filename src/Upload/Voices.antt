-- ===== src/Upload/Voices.antt =====
-- The speakers that `process_meeting_audio` of server/app/workers/tasks.py makes of the voices.
use mathlib.Core.Path.{ap₂}
use corella.Prelude.{
  ℕ, suc, ◌+◌, ◌≡◌, refl, ap, ◌∙◌, arith, Bool, true, Bool-cases, inl, inr, Option, none, some,
  List, [], ◌∷◌, ◌++◌, map, any, All, ◌==◌, if◌then◌else◌, if-elim,
}
use corella.Alignment.{AlignedSegment, same_speaker}
use corella.Upload.{
  Speaker, add_label, labels_from, speakers_by_label, speaker_for, segment, put_segment,
  segments_of,
}

-- The place of a voice among the labels.
abbrev pub place : ℕ → List ℕ → ℕ
place l [] = 0
place l (k ∷ labels) = let rest = place l labels in if k == l then 0 else suc rest

abbrev pub has : List ℕ → Option ℕ → Bool
has labels none = true
has labels (some l) = any (λ k. k == l) labels

suc_same : (a b : ℕ) → (suc a == suc b) ≡ (a == b)
suc_same a b = ground arith

place-same :
    (labels : List ℕ) (l k : ℕ)
    → any (λ j. j == l) labels ≡ true
    → any (λ j. j == k) labels ≡ true
    → (place l labels == place k labels) ≡ (l == k)
unfolding any
place-same [] l k h g = cc
place-same (j ∷ labels) l k h g = elim (Bool-cases (j == l)) [
  | inl e ↦ elim (Bool-cases (j == k)) [ inl f ↦ ground arith | inr f ↦ ground arith ]
  | inr e ↦ elim (Bool-cases (j == k)) [
    | inl f ↦ ground arith
    | inr f ↦
        rw (e, f)
          (suc_same (place l labels) (place k labels)
            ∙ place-same labels l k (rw e at h) (rw f at g))
  ]
]

abbrev numbered : ℕ → ℕ → Option Speaker
numbered i n = some (record { id = i; number = n })

speaker_for-place :
    (labels : List ℕ) (l id count : ℕ)
    → any (λ k. k == l) labels ≡ true
    → speaker_for l (speakers_by_label id count labels)
      ≡ some (record { id = id + place l labels; number = count + 1 + place l labels })
unfolding any speaker_for speakers_by_label
speaker_for-place [] l id count h = cc
speaker_for-place (k ∷ labels) l id count h = elim (Bool-cases (k == l)) [
  | inl e ↦ rw e (ap₂ numbered (omega arith) (omega arith))
  | inr e ↦ rw e (
      speaker_for-place labels l (id + 1) (count + 1) (rw e at h)
      ∙ ap₂ numbered (omega arith) (omega arith))
]

any-append :
    (l : ℕ) (xs ys : List ℕ) → any (λ k. k == l) xs ≡ true → any (λ k. k == l) (xs ++ ys) ≡ true
unfolding any
any-append l [] ys h = cc
any-append l (x ∷ xs) ys h = elim (Bool-cases (x == l)) [
  | inl e ↦ rw e refl
  | inr e ↦ rw e (any-append l xs ys (rw e at h))
]

any-last : (l : ℕ) (xs : List ℕ) → any (λ k. k == l) (xs ++ l ∷ []) ≡ true
unfolding any
any-last l [] = ground arith
any-last l (x ∷ xs) = elim (Bool-cases (x == l)) [
  | inl e ↦ rw e refl
  | inr e ↦ rw e (any-last l xs)
]

has-add_label :
    (labels : List ℕ) (o v : Option ℕ) → has labels o ≡ true → has (add_label labels v) o ≡ true
has-add_label labels none v h = refl
has-add_label labels (some l) none h = h
has-add_label labels (some l) (some k) h =
    if-elim (λ ls. has ls (some l) ≡ true) (any (λ j. j == k) labels) _ _ (λ e. h)
      (λ e. any-append l labels (k ∷ []) h)

add_label-has : (labels : List ℕ) (v : Option ℕ) → has (add_label labels v) v ≡ true
add_label-has labels none = refl
add_label-has labels (some k) =
    if-elim (λ ls. has ls (some k) ≡ true) (any (λ j. j == k) labels) _ _ (λ e. e)
      (λ e. any-last k labels)

has-labels_from :
    (labels : List ℕ) (o : Option ℕ) (aligned : List AlignedSegment)
    → has labels o ≡ true
    → has (labels_from labels aligned) o ≡ true
unfolding labels_from
has-labels_from labels o [] h = h
has-labels_from labels o (a ∷ aligned) h =
    has-labels_from (add_label labels a.speaker) o aligned (has-add_label labels o a.speaker h)

pub labels_from-has :
    (labels : List ℕ) (aligned : List AlignedSegment)
    → All (λ a. has (labels_from labels aligned) a.speaker ≡ true) aligned
unfolding labels_from
labels_from-has labels [] = tt
labels_from-has labels (a ∷ aligned) = (
  has-labels_from (add_label labels a.speaker) a.speaker aligned (add_label-has labels a.speaker),
  labels_from-has (add_label labels a.speaker) aligned,
)

abbrev pub id_at : ℕ → List ℕ → Option ℕ → Option ℕ
id_at id labels none = none
id_at id labels (some l) = some (id + place l labels)

pub segments_of-id_at :
    (id : ℕ) (labels : List ℕ) (aligned : List AlignedSegment)
    → All (λ a. has labels a.speaker ≡ true) aligned
    → segments_of (speakers_by_label id 0 labels) aligned
      ≡ some (map (λ a. segment a (id_at id labels a.speaker)) aligned)
unfolding segments_of
segments_of-id_at id labels [] h = refl
segments_of-id_at id labels (a ∷ aligned) h =
    ap (put_segment (speakers_by_label id 0 labels) a a.speaker)
      (segments_of-id_at id labels aligned h.1)
    ∙ put a.speaker h.0
  where
    put :
        (o : Option ℕ)
        → has labels o ≡ true
        → put_segment
            (speakers_by_label id 0 labels)
            a
            o
            (some (map (λ b. segment b (id_at id labels b.speaker)) aligned))
          ≡ some (
              segment a (id_at id labels o)
              ∷ map (λ b. segment b (id_at id labels b.speaker)) aligned)
    put none g = refl
    put (some l) g = rw (speaker_for-place labels l id 0 g) refl

-- Which of them are of one speaker: a table of Booleans.
abbrev pub alike : List (Option ℕ) → List (List Bool)
alike voices = map (λ v. map (same_speaker v) voices) voices

pub id_at-same :
    (id : ℕ) (labels : List ℕ) (v w : Option ℕ)
    → has labels v ≡ true
    → has labels w ≡ true
    → same_speaker (id_at id labels v) (id_at id labels w) ≡ same_speaker v w
id_at-same id labels none none h g = refl
id_at-same id labels none (some k) h g = refl
id_at-same id labels (some l) none h g = refl
id_at-same id labels (some l) (some k) h g =
    shifted id (place l labels) (place k labels) ∙ place-same labels l k h g
  where
    shifted : (n a b : ℕ) → (n + a == n + b) ≡ (a == b)
    shifted n a b = ground arith
