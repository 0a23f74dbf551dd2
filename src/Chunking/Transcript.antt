-- ===== src/Chunking/Transcript.antt =====
-- The chunks that `chunk_transcript` of server/app/services/embeddings/chunking.py makes of segments.
use corella.Prelude.{
  ℕ, ◌+◌, ◌<◌, ◌≡◌, inl, inr, refl, ap, sym, ◌∙◌, Bool, true, false, none, some, List, [], ◌∷◌,
  ◌++◌, append_assoc, ltb, length, length-append, keep, All, Text, strip, nonempty, arith,
  Bool-cases,
}
use corella.Chunking.{
  Segment, Chunk, Current, space, join, close, begin, extend, chunk_from, chunk_transcript,
}

abbrev pub has_text : Segment → Bool
has_text s = nonempty (strip s.text)

abbrev pub texts_of : List Segment → List Text
texts_of [] = []
texts_of (s ∷ ss) = strip s.text ∷ texts_of ss

abbrev pub last_end : ℕ → List Segment → ℕ
last_end e [] = e
last_end e (s ∷ ss) = last_end s.end_ms ss

-- A group of consecutive segments: the first one, and the others.
abbrev pub Group : Type 0
Group = Segment × List Segment

abbrev pub segments_of : List Group → List Segment
segments_of [] = []
segments_of (g ∷ gs) = (g.0 ∷ g.1) ++ segments_of gs

-- The chunk of a group: its texts with spaces between them, from the first start to the last end.
abbrev pub render : Group → Chunk
render (s, ss) = record {
  text = join (texts_of (s ∷ ss));
  start_ms = s.start_ms;
  end_ms = last_end s.end_ms ss;
}

-- A group is one segment, or its text is shorter than a chunk may be.
abbrev pub fits : ℕ → Group → Bool
fits chunk_size (s, []) = true
fits chunk_size (s, t ∷ ts) = ltb (length (join (texts_of (s ∷ t ∷ ts)))) chunk_size

-- The open chunk is that of a group.
record Matches (chunk_size : ℕ) (c : Current) (g : Group) : Type 0 where
  texts : c.texts ≡ texts_of (g.0 ∷ g.1)
  len : c.len ≡ length (join (texts_of (g.0 ∷ g.1))) + 1
  start : c.start ≡ g.0.start_ms
  end : c.end ≡ last_end g.0.end_ms g.1
  fitting : fits chunk_size g ≡ true

texts_of-append : (ss ts : List Segment) → texts_of (ss ++ ts) ≡ texts_of ss ++ texts_of ts
texts_of-append [] ts = refl
texts_of-append (s ∷ ss) ts = ap (◌∷◌ (strip s.text)) (texts_of-append ss ts)

last_end-snoc : (e : ℕ) (ss : List Segment) (s : Segment) → last_end e (ss ++ s ∷ []) ≡ s.end_ms
last_end-snoc e [] s = refl
last_end-snoc e (t ∷ ss) s = last_end-snoc t.end_ms ss s

length-join :
    (t : Text) (ts : List Text) (u : Text)
    → length (join ((t ∷ ts) ++ u ∷ [])) ≡ length (join (t ∷ ts)) + 1 + length u
length-join t [] u = omega (arith, length-append t (space ∷ u))
length-join t (v ∷ ts) u = omega (
  arith,
  length-append t (space ∷ join ((v ∷ ts) ++ u ∷ [])),
  length-append t (space ∷ join (v ∷ ts)),
  length-join v ts u,
)

begin-Matches : (chunk_size : ℕ) (s : Segment) → Matches chunk_size (begin (strip s.text) s) (s, [])
begin-Matches chunk_size s = record {
  texts = refl;
  len = refl;
  start = refl;
  end = refl;
  fitting = refl;
}

fits-snoc :
    (chunk_size : ℕ) (s : Segment) (ss : List Segment) (t : Segment)
    → length (join (texts_of ((s ∷ ss) ++ t ∷ []))) < chunk_size
    → fits chunk_size (s, ss ++ t ∷ []) ≡ true
fits-snoc chunk_size s [] t h = ground arith
fits-snoc chunk_size s (r ∷ ss) t h = ground arith

extend-Matches :
    (chunk_size : ℕ) (c : Current) (g : Group) (s : Segment)
    → Matches chunk_size c g
    → ltb chunk_size (c.len + length (strip s.text) + 1) ≡ false
    → Matches chunk_size (extend c (strip s.text) s) (g.0, g.1 ++ s ∷ [])
extend-Matches chunk_size c g s m room =
    let whole : texts_of ((g.0 ∷ g.1) ++ s ∷ []) ≡ texts_of (g.0 ∷ g.1) ++ strip s.text ∷ [] =
      texts_of-append (g.0 ∷ g.1) (s ∷ []) in
    let longer : length (join (texts_of ((g.0 ∷ g.1) ++ s ∷ [])))
        ≡ length (join (texts_of (g.0 ∷ g.1))) + 1 + length (strip s.text) =
      ap (λ l. length (join l)) whole
      ∙ length-join (strip g.0.text) (texts_of g.1) (strip s.text) in
    record {
      texts = ap (λ l. l ++ strip s.text ∷ []) m.texts ∙ sym whole;
      len = omega (arith, m.len, longer);
      start = m.start;
      end = sym (last_end-snoc g.0.end_ms g.1 s);
      fitting = fits-snoc chunk_size g.0 g.1 s (ground (arith, m.len, longer));
    }

-- The chunks of some groups.
abbrev pub renders : List Group → List Chunk
renders [] = []
renders (g ∷ gs) = render g ∷ renders gs

close-render :
    (chunk_size : ℕ) (c : Current) (g : Group)
    → Matches chunk_size c g
    → close (some c) ≡ render g ∷ []
close-render chunk_size c g m = rw (m.texts, m.start, m.end) refl

module _ (chunk_size : ℕ) where
  -- Groups that are the chunks of some segments, behind those of the open chunk.
  record Grouped (before : List Segment) (segs : List Segment) (chunks : List Chunk) : Type 0 where
    groups : List Group
    all_of : segments_of groups ≡ before ++ keep has_text segs
    rendered : renders groups ≡ chunks
    fitting : All (λ g. fits chunk_size g ≡ true) groups

  chunk_from-Grouped :
      (c : Current) (g : Group) (segs : List Segment)
      → Matches chunk_size c g
      → Grouped (g.0 ∷ g.1) segs (chunk_from chunk_size (some c) segs)
  unfolding chunk_from keep
  chunk_from-Grouped c g [] m = record {
    groups = g ∷ [];
    all_of = refl;
    rendered = sym (close-render chunk_size c g m);
    fitting = (m.fitting, tt);
  }
  chunk_from-Grouped c g (s ∷ segs) m = elim (Bool-cases (has_text s)) [
    | inr blank ↦
        let r : Grouped (g.0 ∷ g.1) segs (chunk_from chunk_size (some c) segs) =
          chunk_from-Grouped c g segs m in
        record {
          groups = r.groups;
          all_of = rw blank r.all_of;
          rendered = rw blank r.rendered;
          fitting = r.fitting;
        }
    | inl said ↦ elim (Bool-cases (ltb chunk_size (c.len + length (strip s.text) + 1))) [
      | inl over ↦
          let c' : Current = begin (strip s.text) s in
          let r : Grouped (s ∷ []) segs (chunk_from chunk_size (some c') segs) =
            chunk_from-Grouped c' (s, []) segs (begin-Matches chunk_size s) in
          record {
            groups = g ∷ r.groups;
            all_of = rw (said, r.all_of) refl;
            rendered = rw (said, over, m.texts, m.start, m.end, r.rendered) refl;
            fitting = (m.fitting, r.fitting);
          }
      | inr room ↦
          let c' : Current = extend c (strip s.text) s in
          let r : Grouped (g.0 ∷ (g.1 ++ s ∷ [])) segs (chunk_from chunk_size (some c') segs) =
            chunk_from-Grouped c' (g.0, g.1 ++ s ∷ []) segs
              (extend-Matches chunk_size c g s m room) in
          record {
            groups = r.groups;
            all_of = rw said (r.all_of ∙ append_assoc (g.0 ∷ g.1) (s ∷ []) (keep has_text segs));
            rendered = rw (said, room) r.rendered;
            fitting = r.fitting;
          }
    ]
  ]

  chunk_none-Grouped : (segs : List Segment) → Grouped [] segs (chunk_from chunk_size none segs)
  unfolding chunk_from keep
  chunk_none-Grouped [] = record { groups = []; all_of = refl; rendered = refl; fitting = tt }
  chunk_none-Grouped (s ∷ segs) = elim (Bool-cases (has_text s)) [
    | inr blank ↦
        let r : Grouped [] segs (chunk_from chunk_size none segs) = chunk_none-Grouped segs in
        record {
          groups = r.groups;
          all_of = rw blank r.all_of;
          rendered = rw blank r.rendered;
          fitting = r.fitting;
        }
    | inl said ↦
        let c' : Current = begin (strip s.text) s in
        let r : Grouped (s ∷ []) segs (chunk_from chunk_size (some c') segs) =
          chunk_from-Grouped c' (s, []) segs (begin-Matches chunk_size s) in
        record {
          groups = r.groups;
          all_of = rw said r.all_of;
          rendered = rw said r.rendered;
          fitting = r.fitting;
        }
  ]

  -- The segments that say something fall, in their order and each in one piece, into groups of
  -- consecutive ones, and the chunks are those of the groups: their texts with spaces between them, from
  -- the start of the first to the end of the last. A group of more than one segment is shorter than the
  -- chunk size.
  pub chunk_transcript-groups :
      (segs : List Segment)
      → (groups : List Group) × (segments_of groups ≡ keep has_text segs)
        × (renders groups ≡ chunk_transcript chunk_size segs)
        × All (λ g. fits chunk_size g ≡ true) groups
  unfolding chunk_transcript
  chunk_transcript-groups segs =
      let r = chunk_none-Grouped segs in (r.groups, r.all_of, r.rendered, r.fitting)
