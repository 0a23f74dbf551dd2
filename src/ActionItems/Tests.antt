-- ===== src/ActionItems/Tests.antt =====
-- Examples for action items, with the lower case of the letters A to Z.
use corella.Prelude.{
  ◌+◌, ◌≡◌, refl, true, ◌&&◌, List, [], ◌∷◌, leb, if◌then◌else◌, any, keep, map, Text, codes, strip,
  is_space, contains,
}
use corella.ActionItems.{ActionItem, live, report, alike, lowered_live, persist_new_action_items}
use corella.ActionItems.Fresh.{apart, Covered}
use corella.ActionItems.Live.{persist_apart}

abbrev lower : Text → Text
lower s = map (λ c. if leb 65 c && leb c 90 then c + 32 else c) s

abbrev items : List ActionItem
items =
    record { text = codes "Call Bob"; source = live }
    ∷ record { text = codes "Old"; source = report }
    ∷ []

abbrev said : List Text
said = codes " call bob today " ∷ codes "Buy milk" ∷ codes "buy MILK" ∷ codes " " ∷ []

persisted :
    persist_new_action_items lower said items
    ≡ record { text = codes "Call Bob"; source = live }
      ∷ record { text = codes "Old"; source = report }
      ∷ record { text = codes "Buy milk"; source = live }
      ∷ []
unfolding persist_new_action_items strip is_space contains any keep
persisted = refl

items-apart : apart alike (lowered_live lower items) ≡ true
unfolding any keep
items-apart = refl

persist_apart_example :
    (apart alike (lowered_live lower (persist_new_action_items lower said items)) ≡ true)
    × Covered alike lower (lowered_live lower (persist_new_action_items lower said items)) said
persist_apart_example = persist_apart lower said items items-apart
