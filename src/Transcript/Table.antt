-- ===== src/Transcript/Table.antt =====
-- The dictionary that the loop of server/app/services/transcript_format.py ends with, and one pass by it.
use corella.Prelude.{
  ℕ, ◌+◌, ◌≡◌, refl, ap, ◌∙◌, Bool, true, false, not, ◌&&◌, Option, none, some, List, [], ◌∷◌, ◌++◌,
  map, if◌then◌else◌, is_some, All, Text, Bool-cases, Option-cases, inl, inr,
}
use corella.Transcript.{
  TranscriptSegment, CaptureMode, Key, lookup, speaker, raw_of, needs_alias, key, labels_from,
}
use corella.Transcript.Aliases.{
  same_key_refl, lookup-some, lookup-none, IsNumbered, grown-IsNumbered,
}

module _ (is_digit : ℕ → Bool) (owner_id : ℕ) (capture_mode : CaptureMode) where
  -- The dictionary after the lines.
  pub after : List (Key × ℕ) → ℕ → List TranscriptSegment → List (Key × ℕ)
  after al n [] = al
  after al n (s ∷ segs) =
      let k = key is_digit owner_id capture_mode s in
      let kept = after al n segs in
      let grown = after (al ++ (k, n) ∷ []) (n + 1) segs in
      if needs_alias is_digit owner_id capture_mode s && not (is_some (lookup k al))
      then grown
      else kept

  unfoldable pub numbered_name : Option ℕ → Text
  numbered_name none = []
  numbered_name (some n) = speaker n

  -- A line's name by a dictionary.
  unfoldable pub name : List (Key × ℕ) → TranscriptSegment → Text
  name table s =
      if needs_alias is_digit owner_id capture_mode s
      then numbered_name (lookup (key is_digit owner_id capture_mode s) table)
      else raw_of is_digit owner_id capture_mode s

  after-some :
      (al : List (Key × ℕ)) (n : ℕ) (segs : List TranscriptSegment) (k : Key) (m : ℕ)
      → lookup k al ≡ some m
      → lookup k (after al n segs) ≡ some m
  unfolding after
  after-some al n [] k m h = h
  after-some al n (s ∷ segs) k m h =
      either
        (needs_alias is_digit owner_id capture_mode s
          && not (is_some (lookup (key is_digit owner_id capture_mode s) al)))
        _ _
        (after-some (al ++ (key is_digit owner_id capture_mode s, n) ∷ []) (n + 1) segs k m
          (lookup-some k al _ m h))
        (after-some al n segs k m h)
    where
      either :
          (b : Bool) (x y : List (Key × ℕ))
          → lookup k x ≡ some m
          → lookup k y ≡ some m
          → lookup k (if b then x else y) ≡ some m
      either true x y p q = p
      either false x y p q = q

  pub after-IsNumbered :
      (al : List (Key × ℕ)) (n : ℕ) (segs : List TranscriptSegment)
      → IsNumbered al n
      → (m : ℕ) × IsNumbered (after al n segs) m
  unfolding after
  after-IsNumbered al n [] v = (n, v)
  after-IsNumbered al n (s ∷ segs) v =
      either
        (needs_alias is_digit owner_id capture_mode s
          && not (is_some (lookup (key is_digit owner_id capture_mode s) al)))
        (after-IsNumbered (al ++ (key is_digit owner_id capture_mode s, n) ∷ []) (n + 1) segs
          (grown-IsNumbered al n (key is_digit owner_id capture_mode s) v))
        (after-IsNumbered al n segs v)
    where
      either :
          (b : Bool) {x y : List (Key × ℕ)}
          → ((m : ℕ) × IsNumbered x m)
          → ((m : ℕ) × IsNumbered y m)
          → (m : ℕ) × IsNumbered (if b then x else y) m
      either true p q = p
      either false p q = q

  -- One pass gives each line the name that the last dictionary has for it.
  pub record Named (al : List (Key × ℕ)) (n : ℕ) (segs : List TranscriptSegment)
      (table : List (Key × ℕ)) : Type 0 where
    pub labels : labels_from is_digit owner_id capture_mode al n segs ≡ map (name table) segs
    pub listed :
        All
          (λ s.
            (needs_alias is_digit owner_id capture_mode s
              && not (is_some (lookup (key is_digit owner_id capture_mode s) table)))
            ≡ false)
          segs

  module _ (al : List (Key × ℕ)) (n : ℕ) (s : TranscriptSegment) (segs : List TranscriptSegment)
      (table : List (Key × ℕ)) where
    Named-new :
        needs_alias is_digit owner_id capture_mode s ≡ true
        → lookup (key is_digit owner_id capture_mode s) al ≡ none
        → lookup (key is_digit owner_id capture_mode s) table ≡ some n
        → Named (al ++ (key is_digit owner_id capture_mode s, n) ∷ []) (n + 1) segs table
        → Named al n (s ∷ segs) table
    unfolding labels_from name numbered_name
    Named-new alias new hit v = record {
      labels = rw (alias, new, hit, v.labels) refl;
      listed = (rw (alias, hit) refl, v.listed);
    }

    Named-old :
        (m : ℕ)
        → needs_alias is_digit owner_id capture_mode s ≡ true
        → lookup (key is_digit owner_id capture_mode s) al ≡ some m
        → lookup (key is_digit owner_id capture_mode s) table ≡ some m
        → Named al n segs table
        → Named al n (s ∷ segs) table
    unfolding labels_from name numbered_name
    Named-old m alias old hit v = record {
      labels = rw (alias, old, hit, v.labels) refl;
      listed = (rw (alias, hit) refl, v.listed);
    }

    Named-plain :
        needs_alias is_digit owner_id capture_mode s ≡ false
        → Named al n segs table
        → Named al n (s ∷ segs) table
    unfolding labels_from name
    Named-plain plain v = record {
      labels = rw (plain, v.labels) refl;
      listed = (rw plain refl, v.listed);
    }

  last_lookup :
      (k : Key) (al : List (Key × ℕ)) (n : ℕ)
      → lookup k al ≡ none
      → lookup k (al ++ (k, n) ∷ []) ≡ some n
  last_lookup k al n new =
      lookup-none k al ((k, n) ∷ []) new ∙ ap (λ b. if b then some n else none) (same_key_refl k)

  pub labels-Named :
      (al : List (Key × ℕ)) (n : ℕ) (segs : List TranscriptSegment)
      → Named al n segs (after al n segs)
  unfolding after labels_from
  labels-Named al n [] = record { labels = refl; listed = tt }
  labels-Named al n (s ∷ segs) =
      let k : Key = key is_digit owner_id capture_mode s in
      elim (Bool-cases (needs_alias is_digit owner_id capture_mode s)) [
        | inl alias ↦ elim (Option-cases (lookup k al)) [
          | inl new ↦
              rw (alias, new)
                (Named-new al n s segs _ alias new
                  (after-some (al ++ (k, n) ∷ []) (n + 1) segs k n (last_lookup k al n new))
                  (labels-Named (al ++ (k, n) ∷ []) (n + 1) segs))
          | inr (m, old) ↦
              rw (alias, old)
                (Named-old al n s segs _ m alias old (after-some al n segs k m old)
                  (labels-Named al n segs))
        ]
        | inr plain ↦ rw plain (Named-plain al n s segs _ plain (labels-Named al n segs))
      ]
