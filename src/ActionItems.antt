-- ===== src/ActionItems.antt =====
-- Action items of a meeting: server/app/services/copilot/action_items.py. The rows of one meeting, in
-- their order. `lower` is `str.lower`.
pub mod Fresh
pub mod Live
pub mod Report
mod Tests
use corella.Prelude.{
  ℕ, Bool, true, false, not, ◌&&◌, ◌||◌, List, [], ◌∷◌, ◌++◌, if◌then◌else◌, any, keep, reject, map,
  Text, text_eq, strip, nonempty, contains,
}

pub data ActionItemSource : Type 0 where
  live report : ActionItemSource

abbrev pub is_live : ActionItemSource → Bool
is_live live = true
is_live report = false

-- `status` is OPEN in every row that is added here, and is left out.
pub record ActionItem : Type 0 where
  pub text : Text
  pub source : ActionItemSource

abbrev pub from_live : ActionItem → Bool
from_live i = is_live i.source

-- `lowered in e or e in lowered`
abbrev pub alike : Text → Text → Bool
alike lowered e = contains lowered e || contains e lowered

module _ (lower : Text → Text) where
  -- The texts that a loop over `texts` adds, where `existing` holds what was there before, lowered, and
  -- `like` says what is not to be added next to what.
  unfoldable pub new_texts : (Text → Text → Bool) → List Text → List Text → List Text
  new_texts like existing [] = []
  new_texts like existing (text ∷ texts) =
      let stripped = strip text in
      let lowered = lower stripped in
      let skipped = new_texts like existing texts in
      let added = new_texts like (lowered ∷ existing) texts in
      if nonempty stripped
      then if any (like lowered) existing then skipped else stripped ∷ added
      else skipped

  abbrev pub lowered_live : List ActionItem → List Text
  lowered_live items = map (λ i. lower i.text) (keep from_live items)

  unfoldable pub persist_new_action_items : List Text → List ActionItem → List ActionItem
  unfolding new_texts
  persist_new_action_items texts items =
      items
      ++ map (λ t. record { text = t; source = live }) (new_texts alike (lowered_live items) texts)

  unfoldable pub replace_report_action_items : List Text → List ActionItem → List ActionItem
  unfolding new_texts
  replace_report_action_items texts items =
      keep from_live items
      ++ map (λ t. record { text = t; source = report }) (new_texts text_eq [] texts)

unfoldable pub list_report_action_items : List ActionItem → List ActionItem
list_report_action_items items = reject from_live items
