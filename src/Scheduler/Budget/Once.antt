-- ===== src/Scheduler/Budget/Once.antt =====
-- How often the overseer hears of a task's budget (scheduler/src/orxtra/scheduler/_enforcement.py).
use orxtra.Prelude.{
  ◌≡◌, refl, ◌∙◌, ◌+◌, ◌*◌, ◌≤◌, ◌<◌, String, true, false, Option, none, some, List, [], ◌∷◌, ◌++◌,
  ◌==◌, nat_eq, leb, count, count-append, if◌then◌else◌, Result, ok, err, arith,
}
use orxtra.Prelude.Ids.{Uuid, Decimal}
use orxtra.Prelude.Dict.{get, get-put}
use orxtra.Session.Pricing.{Usage, compute_cost_usd}
use orxtra.Scheduler.Budget.{
  TaskBudget, BudgetEvent, Budgets, effective_budget, with_cost, with_model, resolve_model_key,
  accumulate_cost, threshold_messages, exhausted_messages, others, send_budget_events,
  register_cost,
}
use orxtra.Scheduler.Budget.Crossing.{
  is_crossing, is_exhaustion, of_task, crossings, exhaustions, blocks, IsTold, add_cost-IsTold,
}

count-threshold_messages :
    (t i : Uuid) (events : List BudgetEvent)
    → count (of_task t) (others i events) + count (is_crossing t) (threshold_messages i events)
      ≡ count (of_task t) events
unfolding threshold_messages
count-threshold_messages t i [] = refl
count-threshold_messages t i (e ∷ events) = ground (arith, count-threshold_messages t i events)

count-exhausted_messages :
    (t i : Uuid) (events : List BudgetEvent)
    → count (of_task t) (others i events) + count (is_exhaustion t) (exhausted_messages i events)
      ≡ count (of_task t) events
unfolding exhausted_messages
count-exhausted_messages t i [] = refl
count-exhausted_messages t i (e ∷ events) = ground (arith, count-exhausted_messages t i events)

-- The messages of one list are of one kind.
no_exhaustion :
    (t i : Uuid) (events : List BudgetEvent)
    → count (is_exhaustion t) (threshold_messages i events) ≡ 0
unfolding threshold_messages
no_exhaustion t i [] = refl
no_exhaustion t i (e ∷ events) = ground (arith, no_exhaustion t i events)

no_crossing :
    (t i : Uuid) (events : List BudgetEvent)
    → count (is_crossing t) (exhausted_messages i events) ≡ 0
unfolding exhausted_messages
no_crossing t i [] = refl
no_crossing t i (e ∷ events) = ground (arith, no_crossing t i events)

-- Sending moves the events of a task from the pending ones to the overseer.
crossings-send : (t i : Uuid) (s : Budgets) → crossings t (send_budget_events i s) ≡ crossings t s
unfolding send_budget_events
crossings-send t i s = omega (
  arith,
  count-append (is_crossing t) (s.sent ++ threshold_messages i s.threshold_events)
      (exhausted_messages i s.exhausted_events),
  count-append (is_crossing t) s.sent (threshold_messages i s.threshold_events),
  count-threshold_messages t i s.threshold_events,
  no_crossing t i s.exhausted_events,
)

exhaustions-send :
    (t i : Uuid) (s : Budgets) → exhaustions t (send_budget_events i s) ≡ exhaustions t s
unfolding send_budget_events
exhaustions-send t i s = omega (
  arith,
  count-append (is_exhaustion t) (s.sent ++ threshold_messages i s.threshold_events)
      (exhausted_messages i s.exhausted_events),
  count-append (is_exhaustion t) s.sent (threshold_messages i s.threshold_events),
  count-exhausted_messages t i s.exhausted_events,
  no_exhaustion t i s.threshold_events,
)

module _ (t : Uuid) (budget : Decimal) where
  send-IsTold :
      (i : Uuid) (c : Decimal) (s : Budgets)
      → IsTold t budget c s
      → IsTold t budget c (send_budget_events i s)
  unfolding send_budget_events
  send-IsTold i c s h = record {
    cost = h.cost;
    crossed = crossings-send t i s ∙ h.crossed;
    exhausted = λ p. omega (arith, exhaustions-send t i s, h.exhausted p);
    stopped = h.stopped;
  }

  register-IsTold :
      (i : Uuid) (c : Decimal) (s : Budgets)
      → (i == t) ≡ false
      → IsTold t budget c s
      → IsTold t budget c (register_cost i s)
  unfolding register_cost
  register-IsTold i c s other h = record {
    cost = ground (arith, get-put s.task_costs i t 0, h.cost);
    crossed = h.crossed;
    exhausted = h.exhausted;
    stopped = h.stopped;
  }

  costed :
      (i : Uuid) (task : TaskBudget) (r : Result Decimal) (c : Decimal) (s : Budgets)
      → ((i == t) ≡ true → effective_budget task s ≡ some budget)
      → IsTold t budget c s
      → (c' : Decimal) × (c ≤ c') × IsTold t budget c' (with_cost i task r s).1
  unfolding with_cost
  costed i task (err raised) c s eff h = (c, omega arith, h)
  costed i task (ok cost) c s eff h =
      add_cost-IsTold t budget i task cost c (get s.task_costs i) s refl eff h

  priced :
      (i : Uuid) (task : TaskBudget) (usage : Usage) (c : Decimal) (o : Option String) (s : Budgets)
      → ((i == t) ≡ true → effective_budget task s ≡ some budget)
      → IsTold t budget c s
      → (c' : Decimal) × (c ≤ c') × IsTold t budget c' (with_model i task usage o s).1
  unfolding with_model
  priced i task usage c none s eff h = (c, omega arith, h)
  priced i task usage c (some model) s eff h =
      costed i task (compute_cost_usd model usage s.pricing) c s eff h

  accumulate-IsTold :
      (i : Uuid) (task : TaskBudget) (usage : Usage) (c : Decimal) (s : Budgets)
      → ((i == t) ≡ true → effective_budget task s ≡ some budget)
      → IsTold t budget c s
      → (c' : Decimal) × (c ≤ c') × IsTold t budget c' (accumulate_cost i task usage s).1
  unfolding accumulate_cost
  accumulate-IsTold i task usage c s eff h =
      priced i task usage c (resolve_model_key task s) s eff h

-- The states that the scheduler's calls lead to from where a task was taken up; the budget that the
-- calls for this task compute is always the same.
pub data Spends (t : Uuid) (budget : Decimal) (start : Budgets) : Budgets → Type 0 where
  started : Spends t budget start start
  accumulated :
      {s : Budgets}
      → Spends t budget start s
      → (i : Uuid) (task : TaskBudget) (usage : Usage)
      → ((i == t) ≡ true → effective_budget task s ≡ some budget)
      → Spends t budget start (accumulate_cost i task usage s).1
  delivered :
      {s : Budgets}
      → Spends t budget start s
      → (i : Uuid) → Spends t budget start (send_budget_events i s)
  registered :
      {s : Budgets}
      → Spends t budget start s
      → (i : Uuid) → (i == t) ≡ false
      → Spends t budget start (register_cost i s)

-- The task was just taken up, and no event of it is pending or sent.
pub record IsStart (t : Uuid) (s : Budgets) : Type 0 where
  pub at_zero : get s.task_costs t ≡ some 0
  pub quiet : crossings t s ≡ 0

Spends-IsTold :
    {t : Uuid} {budget : Decimal} {start s : Budgets}
    → 0 < budget
    → IsStart t start
    → Spends t budget start s
    → (c : Decimal) × IsTold t budget c s
Spends-IsTold {t} {budget} {start} pos fresh started = (
  0,
  record {
    cost = fresh.at_zero;
    crossed = ground (arith, fresh.quiet);
    exhausted = λ p. absurd (omega arith);
    stopped = λ p q. absurd (omega arith);
  },
)
Spends-IsTold {t} {budget} pos fresh (accumulated {s} spends i task usage eff) =
    let (c, h) = Spends-IsTold pos fresh spends in
    let (c', more, h') = accumulate-IsTold t budget i task usage c s eff h in (c', h')
Spends-IsTold {t} {budget} pos fresh (delivered {s} spends i) =
    let (c, h) = Spends-IsTold pos fresh spends in (c, send-IsTold t budget i c s h)
Spends-IsTold {t} {budget} pos fresh (registered {s} spends i other) =
    let (c, h) = Spends-IsTold pos fresh spends in (c, register-IsTold t budget i c s other h)

-- Of a task with a positive budget that stays the same, from where it was taken up and through any
-- calls of the scheduler's accounting for this and other tasks: the recorded cost decides how many
-- threshold events there are, pending and sent, which is one where the cost has reached eight tenths
-- of the budget and none otherwise; and where it has reached the whole budget, at least one
-- exhaustion event is pending or sent, and the creation of tasks is blocked under the policies that
-- block.
pub accumulate_cost_once :
    {t : Uuid} {budget : Decimal} {start s : Budgets}
    → 0 < budget
    → IsStart t start
    → Spends t budget start s
    → (c : Decimal) × (get s.task_costs t ≡ some c)
      × (crossings t s ≡ (if leb (8 * budget) (10 * c) then 1 else 0))
      × (budget ≤ c → 1 ≤ exhaustions t s)
      × (budget ≤ c → blocks s.policy ≡ true → s.budget_blocked ≡ true)
accumulate_cost_once pos fresh spends =
    let (c, h) = Spends-IsTold pos fresh spends in (c, h.cost, h.crossed, h.exhausted, h.stopped)
