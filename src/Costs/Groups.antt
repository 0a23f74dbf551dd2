-- ===== src/Costs/Groups.antt =====
-- The groups of a summary of server/app/services/admin/costs.py, key by key.
use corella.Prelude.{
  ℕ, suc, ◌+◌, ◌≡◌, refl, sym, ap, ◌∙◌, arith, Bool, true, false, Option, none, some, List, [], ◌∷◌,
  keep, length, ◌==◌, ==_iff, if◌then◌else◌, if-elim, Bool-cases, inl, inr,
}
use corella.Costs.{
  LlmUsageEvent, or_zero, same_owner, lookup, plus, sum_costs, put_row, group_by, coalesced,
}

abbrev pub counts : {K V : Type 0} → List (K × V × ℕ) → ℕ
counts [] = 0
counts ((k, v, count) ∷ rows) = count + counts rows

abbrev pub IsEquality : {K : Type 0} → (K → K → Bool) → Type 0
IsEquality {K = K} same = ((a b : K) → same a b ≡ true → a ≡ b) × ((a : K) → same a a ≡ true)

pub same_owner-IsEquality : IsEquality same_owner
same_owner-IsEquality = (same_owner_path, same_owner_self)
  where
    same_owner_path : (a b : Option ℕ) → same_owner a b ≡ true → a ≡ b
    same_owner_path none none h = refl
    same_owner_path none (some b) h = cc
    same_owner_path (some a) none h = cc
    same_owner_path (some a) (some b) h = ap some ((==_iff a b).0 h)

    same_owner_self : (a : Option ℕ) → same_owner a a ≡ true
    same_owner_self none = refl
    same_owner_self (some a) = (==_iff a a).1 refl

pub ==-IsEquality : IsEquality {K = ℕ} ◌==◌
==-IsEquality = (λ a b. (==_iff a b).0, λ a. (==_iff a a).1 refl)

module _ {C : Type 0} (zero_usd : C) (add : C → C → C) where
  -- What a list of events comes to: the sum of their costs, 0 where none has one.
  abbrev pub cost_of : List (LlmUsageEvent C) → C
  cost_of events = or_zero zero_usd (sum_costs zero_usd add events)

  -- The row of a group of events, none for an empty group.
  abbrev pub row_of : List (LlmUsageEvent C) → Option (C × ℕ)
  row_of [] = none
  row_of (e ∷ events) = some (cost_of (e ∷ events), length (e ∷ events))

  -- The same, with the sum that may be NULL.
  abbrev sum_row : List (LlmUsageEvent C) → Option (Option C × ℕ)
  sum_row [] = none
  sum_row (e ∷ events) = some (sum_costs zero_usd add (e ∷ events), length (e ∷ events))

  abbrev with_one : Option C → Option (Option C × ℕ) → Option C × ℕ
  with_one c none = (c, 1)
  with_one c (some (total, count)) = (plus zero_usd add c total, suc count)

  same_group :
      (b : Bool) (c total : Option C) (count : ℕ) (rest : Option (Option C × ℕ))
      → (if b then some (plus zero_usd add c total, suc count) else rest) ≡ (
          if b
          then some (with_one c (if b then some (total, count) else rest))
          else if b
          then some (total, count)
          else rest)
  same_group true c total count rest = refl
  same_group false c total count rest = refl

  other_group :
      (a b : Bool) (c total : Option C) (count : ℕ) (rest put : Option (Option C × ℕ))
      → (a ≡ true → b ≡ true → ⊥)
      → put ≡ (if b then some (with_one c rest) else rest)
      → (if a then some (total, count) else put) ≡ (
          if b
          then some (with_one c (if a then some (total, count) else rest))
          else if a
          then some (total, count)
          else rest)
  other_group true true c total count rest put apart h = absurd (apart refl refl)
  other_group true false c total count rest put apart h = refl
  other_group false b c total count rest put apart h = h

  lookup-put_row :
      {K : Type 0} (same : K → K → Bool) (j k : K) (c : Option C) (rows : List (K × Option C × ℕ))
      → IsEquality same
      → lookup same k (put_row zero_usd add same j c rows)
        ≡ (if same j k then some (with_one c (lookup same k rows)) else lookup same k rows)
  unfolding lookup put_row
  lookup-put_row same j k c [] law = refl
  lookup-put_row same j k c ((i, total, count) ∷ rows) law = elim (Bool-cases (same i j)) [
    | inl own ↦
        rw (own, sym (ap (λ t. same t k) (law.0 i j own)))
          (same_group (same i k) c total count (lookup same k rows))
    | inr other ↦ rw other (
        other_group (same i k) (same j k) c total count (lookup same k rows) _
          (λ a b.
            clash (sym (ap (λ t. same t j) (law.0 i k a ∙ sym (law.0 j k b)) ∙ law.1 j) ∙ other))
          (lookup-put_row same j k c rows law))
  ]
    where
      clash : true ≡ false → ⊥
      clash h = cc

  plus-none : (c : Option C) → plus zero_usd add c none ≡ c
  plus-none none = refl
  plus-none (some c) = refl

  sum_row-with_one :
      (e : LlmUsageEvent C) (events : List (LlmUsageEvent C))
      → sum_row (e ∷ events) ≡ some (with_one e.cost (sum_row events))
  unfolding sum_costs
  sum_row-with_one e [] = ap (λ t. some (t, 1)) (plus-none e.cost)
  sum_row-with_one e (e' ∷ events) = refl

  sum_row-keep :
      (b : Bool) (e : LlmUsageEvent C) (events : List (LlmUsageEvent C))
      → (if b then some (with_one e.cost (sum_row events)) else sum_row events)
        ≡ sum_row (if b then e ∷ events else events)
  sum_row-keep true e events = sym (sum_row-with_one e events)
  sum_row-keep false e events = refl

  lookup-group_by :
      {K : Type 0} (same : K → K → Bool) (key : LlmUsageEvent C → K) (k : K)
      (events : List (LlmUsageEvent C))
      → IsEquality same
      → lookup same k (group_by zero_usd add same key events)
        ≡ sum_row (keep (λ e. same (key e) k) events)
  unfolding group_by keep lookup
  lookup-group_by same key k [] law = refl
  lookup-group_by same key k (e ∷ events) law =
      lookup-put_row same (key e) k e.cost (group_by zero_usd add same key events) law
      ∙ ap (λ r. if same (key e) k then some (with_one e.cost r) else r)
          (lookup-group_by same key k events law)
      ∙ sum_row-keep (same (key e) k) e (keep (λ e. same (key e) k) events)

  priced : Option (Option C × ℕ) → Option (C × ℕ)
  priced none = none
  priced (some (total, count)) = some (or_zero zero_usd total, count)

  lookup-coalesced :
      {K : Type 0} (same : K → K → Bool) (k : K) (rows : List (K × Option C × ℕ))
      → lookup same k (coalesced zero_usd add rows) ≡ priced (lookup same k rows)
  unfolding lookup coalesced priced
  lookup-coalesced same k [] = refl
  lookup-coalesced same k ((j, total, count) ∷ rows) = elim (Bool-cases (same j k)) [
    | inl own ↦ rw own refl
    | inr other ↦ rw other (lookup-coalesced same k rows)
  ]

  priced-sum_row : (events : List (LlmUsageEvent C)) → priced (sum_row events) ≡ row_of events
  unfolding priced
  priced-sum_row [] = refl
  priced-sum_row (e ∷ events) = refl

  pub group-row_of :
      {K : Type 0} (same : K → K → Bool) (key : LlmUsageEvent C → K) (k : K)
      (events : List (LlmUsageEvent C))
      → IsEquality same
      → lookup same k (coalesced zero_usd add (group_by zero_usd add same key events))
        ≡ row_of (keep (λ e. same (key e) k) events)
  group-row_of same key k events law =
      lookup-coalesced same k (group_by zero_usd add same key events)
      ∙ ap priced (lookup-group_by same key k events law)
      ∙ priced-sum_row (keep (λ e. same (key e) k) events)

  counts-put_row :
      {K : Type 0} (same : K → K → Bool) (k : K) (c : Option C) (rows : List (K × Option C × ℕ))
      → counts (put_row zero_usd add same k c rows) ≡ 1 + counts rows
  unfolding put_row
  counts-put_row same k c [] = refl
  counts-put_row same k c ((j, total, count) ∷ rows) =
      if-elim (λ r. counts r ≡ 1 + (count + counts rows)) (same j k)
        ((j, plus zero_usd add c total, suc count) ∷ rows)
        ((j, total, count) ∷ put_row zero_usd add same k c rows) (λ e. omega arith)
        (λ e. omega (arith, counts-put_row same k c rows))

  pub counts-coalesced :
      {K : Type 0} (rows : List (K × Option C × ℕ))
      → counts (coalesced zero_usd add rows) ≡ counts rows
  unfolding coalesced
  counts-coalesced [] = refl
  counts-coalesced ((k, total, count) ∷ rows) = ap (λ n. count + n) (counts-coalesced rows)

  pub counts-group_by :
      {K : Type 0} (same : K → K → Bool) (key : LlmUsageEvent C → K)
      (events : List (LlmUsageEvent C))
      → counts (group_by zero_usd add same key events) ≡ length events
  unfolding group_by
  counts-group_by same key [] = refl
  counts-group_by same key (e ∷ events) = omega (
    arith,
    counts-put_row same (key e) e.cost (group_by zero_usd add same key events),
    counts-group_by same key events,
  )
