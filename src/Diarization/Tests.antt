-- ===== src/Diarization/Tests.antt =====
-- Examples for the registry of voices: an embedding is a number, and two are alike if they are close.
use corella.Prelude.{ℕ, ◌+◌, ◌-◌, ◌/◌, ◌≤◌, ◌≡◌, refl, Option, none, some, List, [], ◌∷◌, any}
use corella.Diarization.{Cluster, Voice, claims, best_match, update_centroid, register, fresh}
use corella.Diarization.Claims.{claimants, claims_once}
use corella.Diarization.Assign.{Segment, assigned, best_label, add_weights, IsWaiting}
use corella.Diarization.{Settings, meets_guest_floor}
use corella.Diarization.Promote.{
  Promotion, promote, promotes, promote_new_speaker, drained, promote-IsWaiting,
}
use corella.Prelude.{All, Bool, true, keep}

abbrev similarity : ℕ → ℕ → ℕ
similarity a b = 100 - ((a - b) + (b - a))

abbrev blend : ℕ → ℕ → ℕ → ℕ
blend c n e = (c + e) / 2

abbrev recognize : ℕ → Option ℕ
recognize e = none

abbrev known : List (Cluster ℕ)
known = record { centroid = 10; count = 1; weight_ms = 900; speaker_id = some 1 } ∷ []

-- Two voices that are both like the one entry: the first claims it, the second gets an entry of its own.
abbrev heard : List (Voice ℕ)
heard = record { label = 7; embedding = 12 } ∷ record { label = 8; embedding = 11 } ∷ []

both_heard :
    (claims similarity blend 80 recognize heard (fresh known 1)).label_to_idx ≡ (7, 0) ∷ (8, 1) ∷ []
unfolding claims best_match update_centroid register any
both_heard = refl

claims_once_example :
    claimants 0 (claims similarity blend 80 recognize heard (fresh known 1)).label_to_idx ≤ 1
claims_once_example = claims_once similarity blend 80 recognize heard known 1 0

-- A segment of a second, which the first voice covers for 300 ms and the second for 700.
abbrev said : Segment
said = record { id = 4; start_ms = 1000; end_ms = 2000; speaker_id = none }

abbrev spans : List (ℕ × List (ℕ × ℕ))
spans = (7, (0, 1200) ∷ (1900, 3000) ∷ []) ∷ (8, (1200, 1900) ∷ []) ∷ []

said_by_second : assigned 0 3000 spans ((7, 0) ∷ (8, 1) ∷ []) [] (said ∷ []) ≡ (said, 1) ∷ []
unfolding assigned best_label any
said_by_second = refl

-- The first entry has a speaker, the second has none yet.
abbrev registry : List (Cluster ℕ)
registry =
    record { centroid = 10; count = 1; weight_ms = 900; speaker_id = some 1 }
    ∷ record { centroid = 90; count = 1; weight_ms = 0; speaker_id = none }
    ∷ []

abbrev settings : Settings
settings = record { diarization_guest_min_ms = 800; guest_min_share_of = 1; guest_min_share_in = 5 }

abbrev everything : ℕ → Bool
everything id = true

-- The second entry has spoken for a second by now, and two segments wait for it.
abbrev grown : Promotion ℕ
grown = record {
  clusters = add_weights ((said, 1) ∷ []) registry;
  pending =
      record { segment_id = 4; cluster_index = 1 }
      ∷ record { segment_id = 6; cluster_index = 1 }
      ∷ [];
  speakers = 1;
  resulting = [];
}

both_labelled : (promote everything settings grown).resulting ≡ (4, 2) ∷ (6, 2) ∷ []
unfolding promote promotes promote_new_speaker drained keep meets_guest_floor add_weights
both_labelled = refl

promote_example :
    All
      (IsWaiting (promote everything settings grown).clusters)
      (promote everything settings grown).pending
unfolding add_weights
promote_example = promote-IsWaiting everything settings grown (refl, (refl, tt))
