-- ===== src/ActionItems/Report.antt =====
-- The report digest that `replace_report_action_items` of server/app/services/copilot/action_items.py
-- writes.
use mathlib.Core.Path.{subst}
use corella.Prelude.{
  ◌≡◌, refl, sym, ap, ◌∙◌, true, List, [], ◌∷◌, ◌++◌, keep, reject, map, Text, text_eq,
  text_eq_refl, text_eq_comm, Bool-cases, inl, inr,
}
use corella.ActionItems.{
  ActionItem, report, from_live, new_texts, replace_report_action_items, list_report_action_items,
}
use corella.ActionItems.Fresh.{apart, new_texts-apart, Covered, new_texts-Covered}

abbrev digested : Text → ActionItem
digested t = record { text = t; source = report }

live-replaced :
    (items : List ActionItem) (ts : List Text)
    → keep from_live (keep from_live items ++ map digested ts) ≡ keep from_live items
unfolding keep
live-replaced [] [] = refl
live-replaced [] (t ∷ ts) = live-replaced [] ts
live-replaced (i ∷ items) ts = elim (Bool-cases (from_live i)) [
  | inl kept ↦ rw (kept, kept, live-replaced items ts) refl
  | inr other ↦ rw other (live-replaced items ts)
]

report-replaced :
    (items : List ActionItem) (ts : List Text)
    → reject from_live (keep from_live items ++ map digested ts) ≡ map digested ts
unfolding keep reject
report-replaced [] [] = refl
report-replaced [] (t ∷ ts) = ap (◌∷◌ (digested t)) (report-replaced [] ts)
report-replaced (i ∷ items) ts = elim (Bool-cases (from_live i)) [
  | inl kept ↦ rw (kept, kept) (report-replaced items ts)
  | inr other ↦ rw other (report-replaced items ts)
]

module _ (lower : Text → Text) where
  abbrev pub lowered_report : List ActionItem → List Text
  lowered_report items = map (λ i. lower i.text) (list_report_action_items items)

  lowered_digested : (ts : List Text) → map (λ i. lower i.text) (map digested ts) ≡ map lower ts
  lowered_digested [] = refl
  lowered_digested (t ∷ ts) = ap (◌∷◌ (lower t)) (lowered_digested ts)

  -- A new digest leaves the live captures alone, has no two rows that differ in case only, and a row for
  -- each text that says something; and writing it once more changes nothing.
  pub replace_report_lem :
      (texts : List Text) (items : List ActionItem)
      → let items' = replace_report_action_items lower texts items in
        (keep from_live items' ≡ keep from_live items)
        × (apart text_eq (lowered_report items') ≡ true)
        × Covered text_eq lower (lowered_report items') texts
        × (replace_report_action_items lower texts items' ≡ items')
  unfolding replace_report_action_items list_report_action_items
  replace_report_lem texts items =
      let fresh : List Text = new_texts lower text_eq [] texts in
      let rows : lowered_report (replace_report_action_items lower texts items) ≡ map lower fresh =
        ap (map (λ i. lower i.text)) (report-replaced items fresh) ∙ lowered_digested fresh in
      (
        live-replaced items fresh,
        ap (apart text_eq) rows ∙ new_texts-apart text_eq text_eq_comm lower [] texts,
        subst (λ pool. Covered text_eq lower pool texts) (sym rows)
            (new_texts-Covered text_eq text_eq_comm lower text_eq_refl [] texts),
        ap (λ kept. kept ++ map digested fresh) (live-replaced items fresh),
      )
