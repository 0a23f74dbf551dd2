-- ===== src/ActionItems/Fresh.antt =====
-- The loops of server/app/services/copilot/action_items.py that add only what is new.
use corella.Prelude.{
  ◌≡◌, refl, sym, Bool, true, false, not, ◌&&◌, ◌||◌, List, [], ◌∷◌, ◌++◌, if◌then◌else◌, any, map,
  All, Text, strip, nonempty, arith, Bool-cases, inl, inr,
}
use mathlib.Core.Path.{subst}
use corella.ActionItems.{new_texts}

module _ (like : Text → Text → Bool) where
  -- No text of a list is like a later one.
  abbrev pub apart : List Text → Bool
  apart [] = true
  apart (t ∷ ts) = let rest = apart ts in if any (like t) ts then false else rest

  -- No text of the second list is like one of the first.
  abbrev pub Unlike : List Text → List Text → Type 0
  Unlike before ts = All (λ t. any (like t) before ≡ false) ts

  -- Whatever is said in the texts has something like it in a pool.
  abbrev pub Covered : (Text → Text) → List Text → List Text → Type 0
  Covered lower pool texts =
      All (λ t. (nonempty (strip t) && not (any (like (lower (strip t))) pool)) ≡ false) texts

module _ (like : Text → Text → Bool) (both_ways : (s t : Text) → like s t ≡ like t s) where
  Unlike-tail :
      (b : Text) (before ts : List Text) → Unlike like (b ∷ before) ts → Unlike like before ts
  unfolding any
  Unlike-tail b before [] h = tt
  Unlike-tail b before (t ∷ ts) (h, k) = (ground arith, Unlike-tail b before ts k)

  Unlike-head :
      (b : Text) (before ts : List Text) → Unlike like (b ∷ before) ts → any (like b) ts ≡ false
  unfolding any
  Unlike-head b before [] h = refl
  Unlike-head b before (t ∷ ts) (h, k) = ground (arith, both_ways b t, Unlike-head b before ts k)

  any-append : (p : Text → Bool) (xs ys : List Text) → any p (xs ++ ys) ≡ (any p xs || any p ys)
  unfolding any
  any-append p [] ys = refl
  any-append p (x ∷ xs) ys = ground (arith, any-append p xs ys)

  pub apart-append :
      (xs ys : List Text)
      → apart like xs ≡ true
      → apart like ys ≡ true
      → Unlike like xs ys
      → apart like (xs ++ ys) ≡ true
  unfolding any
  apart-append [] ys h k u = k
  apart-append (x ∷ xs) ys h k u = ground (
    arith,
    any-append (like x) xs ys,
    Unlike-head x xs ys u,
    apart-append xs ys (ground arith) k (Unlike-tail x xs ys u),
  )

  module _ (lower : Text → Text) where
    abbrev pub lowered : List Text → List Text
    lowered ts = map lower ts

    pub new_texts-Unlike :
        (existing texts : List Text)
        → Unlike like existing (lowered (new_texts lower like existing texts))
    unfolding new_texts any
    new_texts-Unlike existing [] = tt
    new_texts-Unlike existing (t ∷ ts) = elim (Bool-cases (nonempty (strip t))) [
      | inr blank ↦ rw blank (new_texts-Unlike existing ts)
      | inl said ↦ elim (Bool-cases (any (like (lower (strip t))) existing)) [
        | inl old ↦ rw (said, old) (new_texts-Unlike existing ts)
        | inr new ↦
            rw (said, new)
              (
                new,
                Unlike-tail (lower (strip t)) existing _
                    (new_texts-Unlike (lower (strip t) ∷ existing) ts),
              )
      ]
    ]

    pub new_texts-apart :
        (existing texts : List Text)
        → apart like (lowered (new_texts lower like existing texts)) ≡ true
    unfolding new_texts any
    new_texts-apart existing [] = refl
    new_texts-apart existing (t ∷ ts) = elim (Bool-cases (nonempty (strip t))) [
      | inr blank ↦ rw blank (new_texts-apart existing ts)
      | inl said ↦ elim (Bool-cases (any (like (lower (strip t))) existing)) [
        | inl old ↦ rw (said, old) (new_texts-apart existing ts)
        | inr new ↦
            rw
              (
                said,
                new,
                Unlike-head (lower (strip t)) existing _
                    (new_texts-Unlike (lower (strip t) ∷ existing) ts),
              )
              (new_texts-apart (lower (strip t) ∷ existing) ts)
      ]
    ]

    Covered-map :
        (pool pool' texts : List Text)
        → ((s : Text) → any (like s) pool ≡ true → any (like s) pool' ≡ true)
        → Covered like lower pool texts
        → Covered like lower pool' texts
    Covered-map pool pool' [] f h = tt
    Covered-map pool pool' (t ∷ ts) f (h, k) =
        (ground (arith, f (lower (strip t))), Covered-map pool pool' ts f k)

    -- What the loop makes of its first text.
    new_texts-skip :
        (existing : List Text) (t : Text) (ts : List Text)
        → (nonempty (strip t) && not (any (like (lower (strip t))) existing)) ≡ false
        → new_texts lower like existing (t ∷ ts) ≡ new_texts lower like existing ts
    unfolding new_texts
    new_texts-skip existing t ts h = ground arith

    new_texts-add :
        (existing : List Text) (t : Text) (ts : List Text)
        → nonempty (strip t) ≡ true
        → any (like (lower (strip t))) existing ≡ false
        → new_texts lower like existing (t ∷ ts)
          ≡ strip t ∷ new_texts lower like (lower (strip t) ∷ existing) ts
    unfolding new_texts
    new_texts-add existing t ts said new = rw (said, new) refl

    module _ (itself : (s : Text) → like s s ≡ true) where
      skipped :
          (existing : List Text) (t : Text) (ts : List Text)
          → (nonempty (strip t) && not (any (like (lower (strip t))) existing)) ≡ false
          → Covered like lower (existing ++ lowered (new_texts lower like existing ts)) ts
          → Covered like lower
              (existing ++ lowered (new_texts lower like existing (t ∷ ts)))
              (t ∷ ts)
      skipped existing t ts old h =
          let rest : List Text = lowered (new_texts lower like existing ts) in
          subst (λ added. Covered like lower (existing ++ lowered added) (t ∷ ts))
            (sym (new_texts-skip existing t ts old))
            (ground (arith, any-append (like (lower (strip t))) existing rest), h)

      added :
          (existing : List Text) (t : Text) (ts : List Text)
          → nonempty (strip t) ≡ true
          → any (like (lower (strip t))) existing ≡ false
          → Covered like lower
              ((lower (strip t) ∷ existing)
                ++ lowered (new_texts lower like (lower (strip t) ∷ existing) ts))
              ts
          → Covered like lower
              (existing ++ lowered (new_texts lower like existing (t ∷ ts)))
              (t ∷ ts)
      unfolding any
      added existing t ts said new h =
          let l : Text = lower (strip t) in
          let rest : List Text = lowered (new_texts lower like (l ∷ existing) ts) in
          subst (λ a. Covered like lower (existing ++ lowered a) (t ∷ ts))
            (sym (new_texts-add existing t ts said new))
            (
              ground (arith, any-append (like l) existing (l ∷ rest), itself l),
              Covered-map ((l ∷ existing) ++ rest) (existing ++ l ∷ rest) ts
                  (λ s k. ground (
                    arith,
                    any-append (like s) existing (l ∷ rest),
                    any-append (like s) existing rest,
                  ))
                  h,
            )

      pub new_texts-Covered :
          (existing texts : List Text)
          → Covered like lower (existing ++ lowered (new_texts lower like existing texts)) texts
      new_texts-Covered existing [] = tt
      new_texts-Covered existing (t ∷ ts) =
          elim (Bool-cases (nonempty (strip t) && not (any (like (lower (strip t))) existing))) [
            | inl new ↦
                added existing t ts (ground arith) (ground arith)
                  (new_texts-Covered (lower (strip t) ∷ existing) ts)
            | inr old ↦ skipped existing t ts old (new_texts-Covered existing ts)
          ]
