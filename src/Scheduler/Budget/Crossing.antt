-- ===== src/Scheduler/Budget/Crossing.antt =====
-- Budget events of one task over a run (scheduler/src/orxtra/scheduler/_enforcement.py).
use mathlib.Core.Option.{some-injective}
use orxtra.Prelude.{
  ◌≡◌, refl, sym, ◌∙◌, ap, subst, ℕ, ◌+◌, ◌*◌, ◌≤◌, Bool, true, false, Option, none, some, [], ◌∷◌,
  ◌==◌, nat_eq, leb, count, count-append, if◌then◌else◌, Bool-cases, inl, inr, arith,
}
use orxtra.Prelude.Ids.{Uuid, Decimal}
use orxtra.Prelude.Dict.{get, put, get-put}
use orxtra.Scheduler.Budget.{
  BudgetExhaustionPolicy, block_new, cancel_all, timeout_grace, unlimited, TaskBudget, BudgetEvent,
  Sent, budget_threshold_crossed, budget_exhausted, Budgets, effective_budget, exhaust, crosses,
  note_threshold, note_exhausted, enforce, add_cost, budget_event,
}

abbrev pub is_crossing : Uuid → Sent → Bool
is_crossing t (budget_threshold_crossed w b c) = w == t
is_crossing t (budget_exhausted w) = false

abbrev pub is_exhaustion : Uuid → Sent → Bool
is_exhaustion t (budget_threshold_crossed w b c) = false
is_exhaustion t (budget_exhausted w) = w == t

abbrev pub of_task : Uuid → BudgetEvent → Bool
of_task t e = e.task_id == t

-- The threshold events of the task, pending and sent.
abbrev pub crossings : Uuid → Budgets → ℕ
crossings t s = count (of_task t) s.threshold_events + count (is_crossing t) s.sent

-- The exhaustion events of the task, pending and sent.
abbrev pub exhaustions : Uuid → Budgets → ℕ
exhaustions t s = count (of_task t) s.exhausted_events + count (is_exhaustion t) s.sent

abbrev pub blocks : BudgetExhaustionPolicy → Bool
blocks block_new = true
blocks timeout_grace = true
blocks cancel_all = false
blocks unlimited = false

-- What the events of a task say of its cost `c`.
pub record IsTold (t : Uuid) (budget c : Decimal) (s : Budgets) : Type 0 where
  pub cost : get s.task_costs t ≡ some c
  pub crossed : crossings t s ≡ (if leb (8 * budget) (10 * c) then 1 else 0)
  pub exhausted : budget ≤ c → 1 ≤ exhaustions t s
  pub stopped : budget ≤ c → blocks s.policy ≡ true → s.budget_blocked ≡ true

abbrev costing : Budgets → Uuid → Decimal → Budgets
costing s k c = record s { task_costs = put s.task_costs k c }

module _ (t : Uuid) (budget : Decimal) where
  exhaust-IsTold :
      (c : Decimal) (policy : BudgetExhaustionPolicy) (s : Budgets)
      → IsTold t budget c s
      → IsTold t budget c (exhaust policy s)
  unfolding exhaust
  exhaust-IsTold c block_new s h = record {
    cost = h.cost;
    crossed = h.crossed;
    exhausted = h.exhausted;
    stopped = λ p q. refl;
  }
  exhaust-IsTold c timeout_grace s h = record {
    cost = h.cost;
    crossed = h.crossed;
    exhausted = h.exhausted;
    stopped = λ p q. refl;
  }
  exhaust-IsTold c cancel_all s h = record {
    cost = h.cost;
    crossed = h.crossed;
    exhausted = h.exhausted;
    stopped = h.stopped;
  }
  exhaust-IsTold c unlimited s h = h

  -- An event of another task leaves the counts as they are.
  enforce_other-IsTold :
      (i : Uuid) (task : TaskBudget) (spent cost c : Decimal) (o : Option Decimal) (s : Budgets)
      → (i == t) ≡ false
      → IsTold t budget c s
      → IsTold t budget c (enforce i task spent cost o s)
  unfolding enforce note_threshold note_exhausted
  enforce_other-IsTold i task spent cost c none s other h = h
  enforce_other-IsTold i task spent cost c (some b) s other h =
      let e = budget_event i task b spent in
      let noted : IsTold t budget c (note_threshold i task b spent cost s) =
        elim (Bool-cases (crosses b spent cost)) [
          | inr no_ ↦ rw no_ h
          | inl yes_ ↦ rw yes_ (record {
            cost = h.cost;
            crossed =
                ground (arith, count-append (of_task t) s.threshold_events (e ∷ []), h.crossed);
            exhausted = h.exhausted;
            stopped = h.stopped;
          })
        ] in
      let s' = note_threshold i task b spent cost s in
      elim (Bool-cases (leb b spent)) [
        | inr no_ ↦ rw no_ noted
        | inl yes_ ↦ rw yes_ (
            exhaust-IsTold c s'.policy _ (record {
              cost = noted.cost;
              crossed = noted.crossed;
              exhausted = λ p.
                  ground (
                    arith,
                    count-append (of_task t) s'.exhausted_events (e ∷ []),
                    noted.exhausted p,
                  );
              stopped = noted.stopped;
            }))
      ]

  note_threshold_crossed :
      (task : TaskBudget) (c cost : Decimal) (s : Budgets)
      → crossings t s ≡ (if leb (8 * budget) (10 * c) then 1 else 0)
      → crossings t (note_threshold t task budget (c + cost) cost s)
        ≡ (if leb (8 * budget) (10 * (c + cost)) then 1 else 0)
  unfolding note_threshold crosses
  note_threshold_crossed task c cost s h =
      let e = budget_event t task budget (c + cost) in
      ground (arith, count-append (of_task t) s.threshold_events (e ∷ []), nat_eq.beq_iff t t)

  note_exhausted_told :
      (task : TaskBudget) (spent : Decimal) (s : Budgets)
      → budget ≤ spent
      → (1 ≤ exhaustions t (note_exhausted t task budget spent s))
        × (blocks s.policy ≡ true → (note_exhausted t task budget spent s).budget_blocked ≡ true)
  unfolding note_exhausted exhaust
  note_exhausted_told task spent s h =
      let e = budget_event t task budget spent in
      ground (arith, count-append (of_task t) s.exhausted_events (e ∷ []), nat_eq.beq_iff t t)

  note_exhausted_keeps :
      (task : TaskBudget) (spent : Decimal) (s : Budgets)
      → (get (note_exhausted t task budget spent s).task_costs t ≡ get s.task_costs t)
        × (crossings t (note_exhausted t task budget spent s) ≡ crossings t s)
        × ((note_exhausted t task budget spent s).policy ≡ s.policy)
  unfolding note_exhausted exhaust
  note_exhausted_keeps task spent s = ground arith

  note_threshold_keeps :
      (task : TaskBudget) (spent cost : Decimal) (s : Budgets)
      → get (note_threshold t task budget spent cost s).task_costs t ≡ get s.task_costs t
  unfolding note_threshold
  note_threshold_keeps task spent cost s = ground arith

  enforce_self-IsTold :
      (task : TaskBudget) (c cost : Decimal) (s : Budgets)
      → get s.task_costs t ≡ some (c + cost)
      → crossings t s ≡ (if leb (8 * budget) (10 * c) then 1 else 0)
      → IsTold t budget (c + cost) (enforce t task (c + cost) cost (some budget) s)
  unfolding enforce
  enforce_self-IsTold task c cost s at h =
      let spent = c + cost in
      let s' = note_threshold t task budget spent cost s in
      let (costs, counts, policy) = note_exhausted_keeps task spent s' in
      record {
        cost = costs ∙ note_threshold_keeps task spent cost s ∙ at;
        crossed = counts ∙ note_threshold_crossed task c cost s h;
        exhausted = λ p. (note_exhausted_told task spent s' p).0;
        stopped = λ p q. (note_exhausted_told task spent s' p).1 (ap blocks (sym policy) ∙ q);
      }

  -- The cost of the task after a call, by what was there before.
  pub add_cost-IsTold :
      (i : Uuid) (task : TaskBudget) (cost c : Decimal) (o : Option Decimal) (s : Budgets)
      → get s.task_costs i ≡ o
      → ((i == t) ≡ true → effective_budget task s ≡ some budget)
      → IsTold t budget c s
      → (c' : Decimal) × (c ≤ c') × IsTold t budget c' (add_cost i task cost o s).1
  unfolding add_cost
  add_cost-IsTold i task cost c none s at eff h = (c, omega arith, h)
  add_cost-IsTold i task cost c (some before) s at eff h = elim (Bool-cases (i == t)) [
    | inl same ↦
        let p : i ≡ t = (nat_eq.beq_iff i t).0 same in
        let found : get s.task_costs t ≡ some before =
          subst (λ k. get s.task_costs k ≡ some before) p at in
        let q : before ≡ c = some-injective before c (sym found ∙ h.cost) in
        (
          before + cost,
          omega arith,
          subst
              (λ o.
                IsTold t budget (before + cost)
                  (enforce i task (before + cost) cost o (costing s i (before + cost))))
              (sym (eff same))
              (subst
                (λ k.
                  IsTold t budget (before + cost) (
                    enforce k task (before + cost) cost (some budget)
                      (costing s k (before + cost))))
                (sym p)
                (enforce_self-IsTold task before cost (costing s t (before + cost))
                  (ground (arith, get-put s.task_costs t t (before + cost), nat_eq.beq_iff t t))
                  (rw q h.crossed))),
        )
    | inr other ↦ (
      c,
      omega arith,
      enforce_other-IsTold i task (before + cost) cost c (effective_budget task s) _ other (record {
        cost = ground (arith, get-put s.task_costs i t (before + cost), h.cost);
        crossed = h.crossed;
        exhausted = h.exhausted;
        stopped = h.stopped;
      }),
    )
  ]
