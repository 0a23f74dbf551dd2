-- ===== src/Costs.antt =====
-- server/app/services/admin/costs.py over the ledger that server/app/services/copilot/cost.py writes. The
-- amounts and their addition are a parameter, of which nothing is assumed, since they are floats; the rows
-- of a sum are added in one fixed order. Days are their ordinals. The order of the groups is left out.
pub mod Groups
pub mod Sums
mod Tests
use corella.Prelude.{
  ℕ, zero, suc, ◌+◌, ◌-◌, Bool, true, false, Option, none, some, List, [], ◌∷◌, ◌++◌, map, keep,
  length, leb, ◌==◌, if◌then◌else◌,
}

-- The columns that are read; `cost` is `cost_usd`, and `day` is the date of `created_at`.
pub record LlmUsageEvent (C : Type 0) : Type 0 where
  pub meeting_id : Option ℕ
  pub owner_id : Option ℕ
  pub organization_id : Option ℕ
  pub provider : ℕ
  pub input_tokens : Option ℕ
  pub output_tokens : Option ℕ
  pub cost : Option C
  pub day : ℕ

-- `estimated_cost` is `Meeting.estimated_cost_usd`.
pub record Meeting (C : Type 0) : Type 0 where
  pub id : ℕ
  pub organization_id : ℕ
  pub estimated_cost : Option C

-- `func.coalesce(..., zero)`
abbrev pub or_zero : {C : Type 0} → C → Option C → C
or_zero zero_usd none = zero_usd
or_zero zero_usd (some c) = c

abbrev pub count_some : {C : Type 0} → Option C → ℕ
count_some none = 0
count_some (some c) = 1

-- `func.sum` over a column of whole numbers, and `func.count`.
unfoldable pub sum_of : {E : Type 0} → (E → ℕ) → List E → ℕ
sum_of f [] = 0
sum_of f (e ∷ events) = f e + sum_of f events

abbrev pub is_of : ℕ → Option ℕ → Bool
is_of organization_id none = false
is_of organization_id (some o) = o == organization_id

-- `org_clause`
abbrev pub in_scope : {C : Type 0} → Option ℕ → LlmUsageEvent C → Bool
in_scope none e = true
in_scope (some organization_id) e = is_of organization_id e.organization_id

abbrev pub same_owner : Option ℕ → Option ℕ → Bool
same_owner none none = true
same_owner none (some b) = false
same_owner (some a) none = false
same_owner (some a) (some b) = a == b

-- The organization of the meeting, NULL where there is none.
unfoldable pub organization_of : {C : Type 0} → ℕ → List (Meeting C) → Option ℕ
organization_of meeting_id [] = none
organization_of meeting_id (m ∷ meetings) =
    let rest = organization_of meeting_id meetings in
    if m.id == meeting_id then some m.organization_id else rest

pub data CostPeriod : Type 0 where
  seven_days thirty_days month year : CostPeriod

-- The first day of the window that ends today; `day_of_month` is the calendar's.
unfoldable pub period_start : (ℕ → ℕ) → CostPeriod → ℕ → ℕ
period_start day_of_month seven_days today = today - 6
period_start day_of_month thirty_days today = today - 29
period_start day_of_month month today = today - (day_of_month today - 1)
period_start day_of_month year today = today - 364

pub record CostSummary (C : Type 0) : Type 0 where
  pub total : C
  pub priced_call_count : ℕ
  pub total_call_count : ℕ
  pub total_input_tokens : ℕ
  pub total_output_tokens : ℕ
  pub by_user : List (Option ℕ × C × ℕ)
  pub by_provider : List (ℕ × C × ℕ)
  pub daily : List (ℕ × C)

-- The row of a key: its value and its count.
unfoldable pub lookup : {K V : Type 0} → (K → K → Bool) → K → List (K × V × ℕ) → Option (V × ℕ)
lookup same k [] = none
lookup same k ((j, v, count) ∷ rows) =
    let rest = lookup same k rows in if same j k then some (v, count) else rest

module _ {C : Type 0} (zero_usd : C) (add : C → C → C) where
  -- `COALESCE(estimated_cost_usd, 0) + cost`, where there is a cost.
  abbrev pub bump : ℕ → Option C → Meeting C → Meeting C
  bump meeting_id none m = m
  bump meeting_id (some c) m =
      if m.id == meeting_id
      then record m { estimated_cost = some (add (or_zero zero_usd m.estimated_cost) c) }
      else m

  -- `add_meeting_cost`
  unfoldable pub add_meeting_cost :
      ℕ
      → ℕ
      → ℕ
      → Option ℕ
      → Option ℕ
      → Option C
      → ℕ
      → List (Meeting C) × List (LlmUsageEvent C)
      → List (Meeting C) × List (LlmUsageEvent C)
  unfolding organization_of
  add_meeting_cost meeting_id owner_id provider input_tokens output_tokens cost today
        (meetings, ledger) =
      (
        map (bump meeting_id cost) meetings,
        ledger
            ++ record {
              meeting_id = some meeting_id;
              owner_id = some owner_id;
              organization_id = organization_of meeting_id meetings;
              provider = provider;
              input_tokens = input_tokens;
              output_tokens = output_tokens;
              cost = cost;
              day = today;
            }
              ∷ [],
      )

  -- One more value for SUM, which skips NULL.
  abbrev pub plus : Option C → Option C → Option C
  plus none total = total
  plus (some c) none = some c
  plus (some c) (some total) = some (add c total)

  -- `func.sum(cost_usd)`
  unfoldable pub sum_costs : List (LlmUsageEvent C) → Option C
  sum_costs [] = none
  sum_costs (e ∷ events) = plus e.cost (sum_costs events)

  -- A group with its sum and the number of its calls.
  unfoldable pub put_row :
      {K : Type 0}
      → (K → K → Bool)
      → K
      → Option C
      → List (K × Option C × ℕ)
      → List (K × Option C × ℕ)
  put_row same k c [] = (k, c, 1) ∷ []
  put_row same k c ((j, total, count) ∷ rows) =
      let rest = put_row same k c rows in
      if same j k then (j, plus c total, suc count) ∷ rows else (j, total, count) ∷ rest

  -- `group_by(key)` with `sum(cost_usd)` and `count(id)`.
  unfoldable pub group_by :
      {K : Type 0}
      → (K → K → Bool)
      → (LlmUsageEvent C → K)
      → List (LlmUsageEvent C)
      → List (K × Option C × ℕ)
  unfolding put_row
  group_by same key [] = []
  group_by same key (e ∷ events) = put_row same (key e) e.cost (group_by same key events)

  -- The rows with `coalesce(..., 0.0)`.
  unfoldable pub coalesced : {K : Type 0} → List (K × Option C × ℕ) → List (K × C × ℕ)
  coalesced [] = []
  coalesced ((k, total, count) ∷ rows) = (k, or_zero zero_usd total, count) ∷ coalesced rows

  -- `totals_by_day.get(day, 0.0)`
  abbrev pub total_or_zero : Option (C × ℕ) → C
  total_or_zero none = zero_usd
  total_or_zero (some (total, count)) = total

  -- `_dense_daily`, the days that are left as fuel.
  unfoldable pub dense_from : ℕ → ℕ → List (ℕ × C × ℕ) → List (ℕ × C)
  unfolding lookup
  dense_from zero day totals_by_day = []
  dense_from (suc n) day totals_by_day =
      (day, total_or_zero (lookup ◌==◌ day totals_by_day)) ∷ dense_from n (day + 1) totals_by_day

  unfoldable pub dense_daily : ℕ → ℕ → List (ℕ × C × ℕ) → List (ℕ × C)
  unfolding dense_from
  dense_daily start end totals_by_day = dense_from (end + 1 - start) start totals_by_day

  -- `totals_by_day`: the events since the start, by their day.
  unfoldable pub daily_rows : ℕ → List (LlmUsageEvent C) → List (ℕ × C × ℕ)
  unfolding group_by coalesced keep
  daily_rows start events =
      coalesced (group_by ◌==◌ (λ e. e.day) (keep (λ e. leb start e.day) events))

  -- `get_cost_summary`, without the average and the projection.
  unfoldable pub get_cost_summary :
      (ℕ → ℕ) → ℕ → CostPeriod → Option ℕ → List (LlmUsageEvent C) → CostSummary C
  unfolding group_by coalesced dense_daily daily_rows period_start sum_of sum_costs keep
  get_cost_summary day_of_month today period organization_id ledger =
      let events = keep (in_scope organization_id) ledger in
      let start = period_start day_of_month period today in
      record {
        total = or_zero zero_usd (sum_costs events);
        priced_call_count = sum_of (λ e. count_some e.cost) events;
        total_call_count = length events;
        total_input_tokens = sum_of (λ e. or_zero 0 e.input_tokens) events;
        total_output_tokens = sum_of (λ e. or_zero 0 e.output_tokens) events;
        by_user = coalesced (group_by same_owner (λ e. e.owner_id) events);
        by_provider = coalesced (group_by ◌==◌ (λ e. e.provider) events);
        daily = dense_daily start today (daily_rows start events);
      }
