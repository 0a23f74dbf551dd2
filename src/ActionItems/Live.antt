-- ===== src/ActionItems/Live.antt =====
-- Live captures that `persist_new_action_items` of server/app/services/copilot/action_items.py adds.
use corella.Prelude.{
  ◌≡◌, refl, sym, ap, ◌∙◌, true, List, [], ◌∷◌, ◌++◌, keep, map, Text, contains, starts_with, arith,
  Bool-cases, inl, inr,
}
use mathlib.Core.Path.{subst}
use corella.ActionItems.{
  ActionItem, live, from_live, alike, new_texts, lowered_live, persist_new_action_items,
}
use corella.ActionItems.Fresh.{
  apart, apart-append, new_texts-Unlike, new_texts-apart, Covered, new_texts-Covered,
}

alike_comm : (s t : Text) → alike s t ≡ alike t s
alike_comm s t = ground arith

starts_with_refl : (s : Text) → starts_with s s ≡ true
unfolding starts_with
starts_with_refl [] = refl
starts_with_refl (c ∷ s) = ground (arith, starts_with_refl s)

alike_refl : (s : Text) → alike s s ≡ true
unfolding contains
alike_refl [] = refl
alike_refl (c ∷ s) = ground (arith, starts_with_refl (c ∷ s))

module _ (lower : Text → Text) where
  abbrev captured : Text → ActionItem
  captured t = record { text = t; source = live }

  lowered_live-append :
      (items : List ActionItem) (ts : List Text)
      → lowered_live lower (items ++ map captured ts) ≡ lowered_live lower items ++ map lower ts
  unfolding keep
  lowered_live-append [] [] = refl
  lowered_live-append [] (t ∷ ts) = ap (◌∷◌ (lower t)) (lowered_live-append [] ts)
  lowered_live-append (i ∷ items) ts = elim (Bool-cases (from_live i)) [
    | inl kept ↦ rw (kept, lowered_live-append items ts)
    | inr other ↦ rw (other, lowered_live-append items ts)
  ]

  -- Where no live capture is alike to another, that is so after new ones are added, and each text that
  -- says something is alike to a live capture then.
  pub persist_apart :
      (texts : List Text) (items : List ActionItem)
      → apart alike (lowered_live lower items) ≡ true
      → (apart alike (lowered_live lower (persist_new_action_items lower texts items)) ≡ true)
        × Covered alike lower
            (lowered_live lower (persist_new_action_items lower texts items))
            texts
  unfolding persist_new_action_items
  persist_apart texts items h =
      let old : List Text = lowered_live lower items in
      let same = lowered_live-append items (new_texts lower alike old texts) in
      (
        ap (apart alike) same
            ∙ apart-append alike alike_comm old (map lower (new_texts lower alike old texts)) h
                (new_texts-apart alike alike_comm lower old texts)
                (new_texts-Unlike alike alike_comm lower old texts),
        subst (λ pool. Covered alike lower pool texts) (sym same)
            (new_texts-Covered alike alike_comm lower alike_refl old texts),
      )
