-- ===== src/Chunking/Windows.antt =====
-- The windows that `chunk_text` of server/app/services/embeddings/chunking.py cuts a text into.
use corella.Prelude.{
  ℕ, zero, suc, ◌+◌, ◌-◌, ◌≤◌, ◌<◌, ◌≡◌, refl, ap, sym, ◌∙◌, true, false, some, List, [], ◌∷◌, ◌++◌,
  leb, length, take, drop, length-take, length-drop, take-append-drop, All, Text, strip, nonempty,
  arith, Bool-cases, inl, inr,
}
use corella.Chunking.{append_if, chunks_from, chunk_text}

-- The chunks of some windows: what is left of each between its outer spaces, if anything is.
abbrev pub chunks_of : List Text → List Text
chunks_of [] = []
chunks_of (w ∷ ws) = append_if (strip w) (chunks_of ws)

-- Windows laid one upon the other, each over the last `overlap` characters of the one before.
abbrev pub stitch : ℕ → List Text → Text
stitch overlap [] = []
stitch overlap (w ∷ []) = w
stitch overlap (w ∷ v ∷ ws) = w ++ drop overlap (stitch overlap (v ∷ ws))

drop-nil : {A : Type 0} (n : ℕ) (xs : List A) → xs ≡ [] → drop n xs ≡ xs
unfolding drop
drop-nil zero xs h = refl
drop-nil (suc n) [] h = refl
drop-nil (suc n) (x ∷ xs) h = cc

drop-drop : {A : Type 0} (a b : ℕ) (xs : List A) → drop a (drop b xs) ≡ drop (b + a) xs
unfolding drop
drop-drop a zero xs = ap (λ n. drop n xs) (omega arith)
drop-drop a (suc b) [] = drop-nil a [] refl ∙ sym (drop-nil (suc b + a) [] refl)
drop-drop a (suc b) (x ∷ xs) =
    let next : suc (b + a) ≡ suc b + a = omega arith in
    drop-drop a b xs ∙ ap (λ n. drop n (x ∷ xs)) next

take-all : {A : Type 0} (n : ℕ) (xs : List A) → length xs ≤ n → take n xs ≡ xs
unfolding take
take-all zero [] h = refl
take-all zero (x ∷ xs) h = absurd (omega arith)
take-all (suc n) [] h = refl
take-all (suc n) (x ∷ xs) h = ap (◌∷◌ x) (take-all n xs (omega arith))

module _ (chunk_size overlap : ℕ) (smaller : overlap < chunk_size) where
  -- A list of windows that the loop goes through from `start`.
  record Cuts (fuel start : ℕ) (text : Text) : Type 0 where
    first : Text
    others : List Text
    chunked : chunks_from fuel chunk_size overlap start text ≡ some (chunks_of (first ∷ others))
    stitched : stitch overlap (first ∷ others) ≡ drop start text
    fitting : All (λ w. length w ≤ chunk_size) (first ∷ others)

  overlapping :
      (start : ℕ) (text : Text)
      → start + chunk_size < length text
      → take chunk_size (drop start text) ++ drop overlap (drop (start + chunk_size - overlap) text)
        ≡ drop start text
  overlapping start text more =
      ap (λ l. take chunk_size (drop start text) ++ l)
        (drop-drop overlap (start + chunk_size - overlap) text
          ∙ ap (λ n. drop n text) (omega arith)
          ∙ sym (drop-drop chunk_size start text))
      ∙ take-append-drop chunk_size (drop start text)

  cuts :
      (fuel start : ℕ) (text : Text)
      → start < length text
      → length text ≤ start + fuel
      → Cuts fuel start text
  unfolding chunks_from
  cuts zero start text here enough = absurd (omega arith)
  cuts (suc fuel) start text here enough =
      elim (Bool-cases (leb (length text) (start + chunk_size))) [
        | inl last ↦ record {
          first = take chunk_size (drop start text);
          others = [];
          chunked = ground arith;
          stitched = take-all chunk_size (drop start text) (ground (arith, length-drop start text));
          fitting = (omega (arith, length-take chunk_size (drop start text)), tt);
        }
        | inr more ↦
            let rest : Cuts fuel (start + chunk_size - overlap) text =
              cuts fuel (start + chunk_size - overlap) text (ground arith) (ground arith) in
            record {
              first = take chunk_size (drop start text);
              others = rest.first ∷ rest.others;
              chunked = ground (arith, rest.chunked);
              stitched = rw rest.stitched (overlapping start text (ground arith));
              fitting = (omega (arith, length-take chunk_size (drop start text)), rest.fitting);
            }
      ]

  -- Where windows overlap by less than their size, cutting ends: the chunks are those of windows of at
  -- most that size, which, each laid over the `overlap` last characters of the one before, make up the
  -- text between its outer spaces.
  pub chunk_text_cuts :
      (text : Text)
      → (ws : List Text) × (chunk_text chunk_size overlap text ≡ some (chunks_of ws))
        × (stitch overlap ws ≡ strip text)
        × All (λ w. length w ≤ chunk_size) ws
  unfolding chunk_text drop
  chunk_text_cuts text = elim (Bool-cases (nonempty (strip text))) [
    | inl some_text ↦
        let c : Cuts (length (strip text)) 0 (strip text) =
          cuts (length (strip text)) 0 (strip text) (not_empty (strip text) some_text)
            (omega arith) in
        (c.first ∷ c.others, rw some_text c.chunked, c.stitched, c.fitting)
    | inr no_text ↦ ([], rw no_text refl, empty (strip text) no_text, tt)
  ]
    where
      not_empty : (t : Text) → nonempty t ≡ true → 0 < length t
      not_empty t h = ground arith

      empty : (t : Text) → nonempty t ≡ false → [] ≡ t
      empty t h = ground arith
