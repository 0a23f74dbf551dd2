-- ===== src/Costs/Tests.antt =====
-- A small ledger for server/app/services/admin/costs.py, with whole amounts.
use corella.Prelude.{ℕ, ◌+◌, ◌-◌, ◌==◌, ◌≡◌, refl, none, some, List, [], ◌∷◌, keep, map}
use corella.Costs.{
  LlmUsageEvent, Meeting, add_meeting_cost, in_scope, same_owner, lookup, seven_days, period_start,
  CostSummary, get_cost_summary,
}
use corella.Costs.Groups.{counts, cost_of, row_of}
use corella.Costs.Sums.{days_from, get_cost_summary-totals}

abbrev plus_usd : ℕ → ℕ → ℕ
plus_usd a b = a + b

abbrev meetings : List (Meeting ℕ)
meetings =
    record { id = 4; organization_id = 9; estimated_cost = none }
    ∷ record { id = 5; organization_id = 8; estimated_cost = some 3 }
    ∷ []

-- Two priced calls and an unpriced one, on three days.
abbrev spent : List (Meeting ℕ) × List (LlmUsageEvent ℕ)
spent = add_meeting_cost 0 plus_usd 4 1 0 (some 10) (some 20) (some 7) 100 (
    add_meeting_cost 0 plus_usd 4 2 1 none none none 98
      (add_meeting_cost 0 plus_usd 5 1 1 (some 5) (some 5) (some 2) 95 (meetings, [])))

get_cost_summary-totals_example :
    let s : CostSummary ℕ = get_cost_summary 0 plus_usd (λ d. 10) 100 seven_days (some 9) spent.1 in
    let events = keep (in_scope (some 9)) spent.1 in
    let start : ℕ = period_start (λ d. 10) seven_days 100 in
    (lookup same_owner (some 1) s.by_user
      ≡ row_of 0 plus_usd (keep (λ e. same_owner e.owner_id (some 1)) events))
    × (lookup ◌==◌ 1 s.by_provider ≡ row_of 0 plus_usd (keep (λ e. e.provider == 1) events))
    × (counts s.by_user ≡ s.total_call_count)
    × (counts s.by_provider ≡ s.total_call_count)
    × (s.daily
        ≡ map
            (λ d. (d, cost_of 0 plus_usd (keep (λ e. e.day == d) events)))
            (days_from (100 + 1 - start) start))
get_cost_summary-totals_example =
    get_cost_summary-totals 0 plus_usd (λ d. 10) 100 seven_days (some 9) (some 1) 1 spent.1

one_organization :
    let s : CostSummary ℕ = get_cost_summary 0 plus_usd (λ d. 10) 100 seven_days (some 9) spent.1 in
    (s.total ≡ 7)
    × (s.priced_call_count ≡ 1)
    × (s.total_call_count ≡ 2)
    × (s.by_user ≡ (some 1, 7, 1) ∷ (some 2, 0, 1) ∷ [])
    × (s.daily ≡ (94, 0) ∷ (95, 0) ∷ (96, 0) ∷ (97, 0) ∷ (98, 0) ∷ (99, 0) ∷ (100, 7) ∷ [])
unfolding get_cost_summary add_meeting_cost keep
one_organization = (refl, refl, refl, refl, refl)

meetings_bumped :
    spent.0
    ≡ record { id = 4; organization_id = 9; estimated_cost = some 7 }
      ∷ record { id = 5; organization_id = 8; estimated_cost = some 5 }
      ∷ []
unfolding add_meeting_cost
meetings_bumped = refl
