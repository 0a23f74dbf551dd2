-- ===== src/Costs/Sums.antt =====
-- A whole summary of server/app/services/admin/costs.py against the events of the ledger.
use mathlib.Core.Path.{ap₂}
use corella.Prelude.{
  ℕ, zero, suc, ◌+◌, ◌-◌, ◌≤◌, ◌≡◌, refl, ap, ◌∙◌, arith, false, Option, List, [], ◌∷◌, keep, map,
  leb, ◌==◌, if◌then◌else◌, Bool-cases, inl, inr,
}
use corella.Costs.{
  LlmUsageEvent, same_owner, in_scope, lookup, sum_costs, group_by, total_or_zero, dense_from,
  dense_daily, daily_rows, CostPeriod, period_start, CostSummary, get_cost_summary,
}
use corella.Costs.Groups.{
  counts, cost_of, row_of, group-row_of, counts-coalesced, counts-group_by, same_owner-IsEquality,
  ==-IsEquality,
}

-- The days from one on.
abbrev pub days_from : ℕ → ℕ → List ℕ
days_from zero day = []
days_from (suc n) day = day ∷ days_from n (day + 1)

module _ {C : Type 0} (zero_usd : C) (add : C → C → C) where
  keep-since :
      (start d : ℕ) (events : List (LlmUsageEvent C))
      → start ≤ d
      → keep (λ e. e.day == d) (keep (λ e. leb start e.day) events) ≡ keep (λ e. e.day == d) events
  unfolding keep
  keep-since start d [] h = refl
  keep-since start d (e ∷ events) h = elim (Bool-cases (leb start e.day)) [
    | inl late ↦ rw late (ap (λ r. if e.day == d then e ∷ r else r) (keep-since start d events h))
    | inr early ↦ rw (early, before early) (keep-since start d events h)
  ]
    where
      before : leb start e.day ≡ false → (e.day == d) ≡ false
      before early = ground arith

  total_or_zero-row_of :
      (events : List (LlmUsageEvent C))
      → total_or_zero zero_usd add (row_of zero_usd add events) ≡ cost_of zero_usd add events
  unfolding sum_costs
  total_or_zero-row_of [] = refl
  total_or_zero-row_of (e ∷ events) = refl

  dense_from-cost_of :
      (n start day : ℕ) (events : List (LlmUsageEvent C))
      → start ≤ day
      → dense_from zero_usd add n day (daily_rows zero_usd add start events)
        ≡ map (λ d. (d, cost_of zero_usd add (keep (λ e. e.day == d) events))) (days_from n day)
  unfolding dense_from daily_rows
  dense_from-cost_of zero start day events h = refl
  dense_from-cost_of (suc n) start day events h =
      ap₂ (λ c rest. (day, c) ∷ rest)
        (ap (total_or_zero zero_usd add) (
            group-row_of zero_usd add ◌==◌ (λ e. e.day) day (keep (λ e. leb start e.day) events)
              ==-IsEquality
            ∙ ap (row_of zero_usd add) (keep-since start day events h))
          ∙ total_or_zero-row_of (keep (λ e. e.day == day) events))
        (dense_from-cost_of n start (day + 1) events (omega arith))

-- A summary of any period and scope, whatever the amounts are and however they are added: the row of every
-- owner, and that of every provider, has the sum of the costs of exactly its own events and their number,
-- and is missing where there is no such event; the numbers of each of the two lists add up to that of all
-- calls; and the chart has one entry for each day from the first of the period to today, in order, with the
-- sum of the costs of that day, 0 where there is none.
pub get_cost_summary-totals :
    {C : Type 0} (zero_usd : C) (add : C → C → C) (day_of_month : ℕ → ℕ) (today : ℕ)
    (period : CostPeriod) (organization_id owner_id : Option ℕ) (provider : ℕ)
    (ledger : List (LlmUsageEvent C))
    → let s : CostSummary C =
        get_cost_summary zero_usd add day_of_month today period organization_id ledger in
      let events = keep (in_scope organization_id) ledger in
      let start : ℕ = period_start day_of_month period today in
      (lookup same_owner owner_id s.by_user
        ≡ row_of zero_usd add (keep (λ e. same_owner e.owner_id owner_id) events))
      × (lookup ◌==◌ provider s.by_provider
          ≡ row_of zero_usd add (keep (λ e. e.provider == provider) events))
      × (counts s.by_user ≡ s.total_call_count)
      × (counts s.by_provider ≡ s.total_call_count)
      × (s.daily
          ≡ map
              (λ d. (d, cost_of zero_usd add (keep (λ e. e.day == d) events)))
              (days_from (today + 1 - start) start))
unfolding get_cost_summary dense_daily
get_cost_summary-totals zero_usd add day_of_month today period organization_id owner_id provider
      ledger =
    let events = keep (in_scope organization_id) ledger in
    let start = period_start day_of_month period today in
    (
      group-row_of zero_usd add same_owner (λ e. e.owner_id) owner_id events same_owner-IsEquality,
      group-row_of zero_usd add ◌==◌ (λ e. e.provider) provider events ==-IsEquality,
      counts-coalesced zero_usd add (group_by zero_usd add same_owner (λ e. e.owner_id) events)
          ∙ counts-group_by zero_usd add same_owner (λ e. e.owner_id) events,
      counts-coalesced zero_usd add (group_by zero_usd add ◌==◌ (λ e. e.provider) events)
          ∙ counts-group_by zero_usd add ◌==◌ (λ e. e.provider) events,
      dense_from-cost_of zero_usd add (today + 1 - start) start start events (omega arith),
    )
