-- ===== src/Alignment/Runs.antt =====
-- The runs of one voice: `_group_words_by_speaker` of server/app/ws/live_session.py and
-- `_merge_adjacent_same_speaker` of server/app/workers/tasks.py.
use mathlib.Core.Path.{ap₂}
use corella.Prelude.{
  ℕ, ◌≡◌, refl, sym, ap, ◌∙◌, arith, Bool-cases, inl, inr, true, false, Option, none, some, List,
  [], ◌∷◌, ◌++◌, append-nil, append_assoc, map, All, All-append, ◌==◌, if-elim,
}
use corella.Alignment.{
  WhisperWord, DiarizationTurn, same_speaker, put_word, group_from, group_words_by_speaker,
  put_turn, merge_from, merge_adjacent_same_speaker,
}

abbrev pub Run : Type 0
Run = Option ℕ × List WhisperWord

-- The words of the runs, in order.
abbrev pub spoken : List Run → List WhisperWord
spoken [] = []
spoken ((speaker, ws) ∷ runs) = ws ++ spoken runs

-- A run has a word, and all its words are the speaker's.
abbrev pub IsRun : Run → Type 0
IsRun (speaker, []) = ⊥
IsRun (speaker, w ∷ ws) = All (λ v. same_speaker speaker v.speaker ≡ true) (w ∷ ws)

-- The next run is another speaker's.
abbrev pub Turns : Option ℕ → List Run → Type 0
Turns speaker [] = Unit
Turns speaker (run ∷ runs) = same_speaker speaker run.0 ≡ false

abbrev pub AreRuns : List Run → Type 0
AreRuns [] = Unit
AreRuns (run ∷ runs) = IsRun run × Turns run.0 runs × AreRuns runs

same_speaker_refl : (s : Option ℕ) → same_speaker s s ≡ true
same_speaker_refl none = refl
same_speaker_refl (some a) = ground arith

spoken-put_word :
    (runs : List Run) (w : WhisperWord) → spoken (put_word runs w) ≡ spoken runs ++ w ∷ []
unfolding put_word
spoken-put_word [] w = refl
spoken-put_word ((speaker, ws) ∷ []) w =
    if-elim (λ (r : List Run). spoken r ≡ (ws ++ []) ++ w ∷ []) (same_speaker speaker w.speaker) _ _
      (λ e. append-nil (ws ++ w ∷ []) ∙ ap (λ r. r ++ w ∷ []) (sym (append-nil ws)))
      (λ e. ap (λ r. r ++ w ∷ []) (sym (append-nil ws)))
spoken-put_word ((speaker, ws) ∷ next ∷ runs) w =
    ap (λ r. ws ++ r) (spoken-put_word (next ∷ runs) w)
    ∙ sym (append_assoc ws (spoken (next ∷ runs)) (w ∷ []))

IsRun-put :
    (speaker : Option ℕ) (ws : List WhisperWord) (w : WhisperWord)
    → IsRun (speaker, ws)
    → same_speaker speaker w.speaker ≡ true
    → IsRun (speaker, ws ++ w ∷ [])
IsRun-put speaker [] w h e = absurd h
IsRun-put speaker (v ∷ ws) w h e =
    All-append (λ u. same_speaker speaker u.speaker ≡ true) (v ∷ ws) (w ∷ []) h (e, tt)

Turns-put_word :
    (speaker : Option ℕ) (run : Run) (runs : List Run) (w : WhisperWord)
    → same_speaker speaker run.0 ≡ false
    → Turns speaker (put_word (run ∷ runs) w)
unfolding put_word
Turns-put_word speaker (other, ws) [] w h =
    if-elim (Turns speaker) (same_speaker other w.speaker) _ _ (λ e. h) (λ e. h)
Turns-put_word speaker run (next ∷ runs) w h = h

AreRuns-put_word : (runs : List Run) (w : WhisperWord) → AreRuns runs → AreRuns (put_word runs w)
unfolding put_word
AreRuns-put_word [] w h = ((same_speaker_refl w.speaker, tt), tt, tt)
AreRuns-put_word ((speaker, ws) ∷ []) w h =
    if-elim AreRuns (same_speaker speaker w.speaker) _ _
      (λ e. (IsRun-put speaker ws w h.0 e, tt, tt))
      (λ e. (h.0, e, ((same_speaker_refl w.speaker, tt), tt, tt)))
AreRuns-put_word (run ∷ next ∷ runs) w h =
    (h.0, Turns-put_word run.0 next runs w h.1, AreRuns-put_word (next ∷ runs) w h.2)

group_from-AreRuns :
    (runs : List Run) (words : List WhisperWord)
    → AreRuns runs
    → AreRuns (group_from runs words) × (spoken (group_from runs words) ≡ spoken runs ++ words)
unfolding group_from
group_from-AreRuns runs [] h = (h, sym (append-nil (spoken runs)))
group_from-AreRuns runs (w ∷ words) h =
    let (are, said) = group_from-AreRuns (put_word runs w) words (AreRuns-put_word runs w h) in
    (
      are,
      said
          ∙ ap (λ r. r ++ words) (spoken-put_word runs w)
          ∙ append_assoc (spoken runs) (w ∷ []) words,
    )

-- The runs of the words are the words, cut where the speaker changes and nowhere else: one run after the
-- other they are the words again, none is empty, the words of each are one speaker's, and two neighbours
-- are different speakers'. Words without a speaker are a speaker's of their own.
pub group_words_by_speaker-AreRuns :
    (words : List WhisperWord)
    → AreRuns (group_words_by_speaker words) × (spoken (group_words_by_speaker words) ≡ words)
unfolding group_words_by_speaker
group_words_by_speaker-AreRuns words = group_from-AreRuns [] words tt

-- A turn as a word, and a run as its span.
abbrev pub as_word : DiarizationTurn → WhisperWord
as_word t = record { start = t.start; end = t.end; word = []; speaker = some t.speaker }

abbrev pub first_start : List WhisperWord → ℕ
first_start [] = 0
first_start (w ∷ ws) = w.start

abbrev pub last_end : List WhisperWord → ℕ
last_end [] = 0
last_end (w ∷ []) = w.end
last_end (w ∷ v ∷ ws) = last_end (v ∷ ws)

abbrev pub label_of : Option ℕ → ℕ
label_of none = 0
label_of (some l) = l

abbrev pub span : Run → ℕ × ℕ × ℕ
span (speaker, ws) = (first_start ws, last_end ws, label_of speaker)

last_end-snoc : (ws : List WhisperWord) (w : WhisperWord) → last_end (ws ++ w ∷ []) ≡ w.end
last_end-snoc [] w = refl
last_end-snoc (v ∷ []) w = refl
last_end-snoc (v ∷ u ∷ ws) w = last_end-snoc (u ∷ ws) w

-- Runs whose speaker is known.
abbrev pub AreNamed : List Run → Type 0
AreNamed [] = Unit
AreNamed ((none, ws) ∷ runs) = ⊥
AreNamed ((some l, []) ∷ runs) = ⊥
AreNamed ((some l, w ∷ ws) ∷ runs) = AreNamed runs

AreNamed-put_word :
    (runs : List Run) (t : DiarizationTurn) → AreNamed runs → AreNamed (put_word runs (as_word t))
unfolding put_word
AreNamed-put_word [] t h = tt
AreNamed-put_word ((none, ws) ∷ runs) t h = absurd h
AreNamed-put_word ((some l, []) ∷ runs) t h = absurd h
AreNamed-put_word ((some l, w ∷ ws) ∷ []) t h =
    if-elim AreNamed (l == t.speaker) _ _ (λ e. tt) (λ e. tt)
AreNamed-put_word ((some l, w ∷ ws) ∷ next ∷ runs) t h = AreNamed-put_word (next ∷ runs) t h

span-put_word :
    (runs : List Run) (t : DiarizationTurn)
    → AreNamed runs
    → map span (put_word runs (as_word t)) ≡ put_turn (map span runs) t
unfolding put_word put_turn
span-put_word [] t h = refl
span-put_word ((none, ws) ∷ runs) t h = absurd h
span-put_word ((some l, []) ∷ runs) t h = absurd h
span-put_word ((some l, w ∷ ws) ∷ []) t h = elim (Bool-cases (l == t.speaker)) [
  | inl e ↦
      let same : l ≡ t.speaker = ground arith in
      rw e (ap₂ (λ (n m : ℕ). (w.start, n, m) ∷ []) (last_end-snoc (w ∷ ws) (as_word t)) same)
  | inr e ↦ rw e refl
]
span-put_word ((some l, w ∷ ws) ∷ next ∷ runs) t h =
    ap (◌∷◌ (span (some l, w ∷ ws))) (span-put_word (next ∷ runs) t h)

span-group_from :
    (runs : List Run) (turns : List DiarizationTurn)
    → AreNamed runs
    → map span (group_from runs (map as_word turns)) ≡ merge_from (map span runs) turns
unfolding group_from merge_from
span-group_from runs [] h = refl
span-group_from runs (t ∷ turns) h =
    span-group_from (put_word runs (as_word t)) turns (AreNamed-put_word runs t h)
    ∙ ap (λ r. merge_from r turns) (span-put_word runs t h)

-- The merged turns are the spans of the runs: each from the start of its first turn to the end of its
-- last, so that what holds of the runs of words holds of them.
pub merge_adjacent_same_speaker-group_words_by_speaker :
    (turns : List DiarizationTurn)
    → merge_adjacent_same_speaker turns ≡ map span (group_words_by_speaker (map as_word turns))
unfolding merge_adjacent_same_speaker group_words_by_speaker
merge_adjacent_same_speaker-group_words_by_speaker turns = sym (span-group_from [] turns tt)
