-- ===== src/Scheduler/Budget.antt =====
-- The enforcement of budgets (scheduler/src/orxtra/scheduler/_enforcement.py), on the attributes of
-- the scheduler that it reads and writes. An abort that is put on the event loop is recorded with
-- its delay, and an event that is sent to the overseer in the order of sending.
pub mod Crossing
pub mod Once
use orxtra.Prelude.{
  ℕ, ◌+◌, ◌-◌, ◌*◌, String, Bool, true, false, not, ◌&&◌, Option, none, some, List, [], ◌∷◌, ◌++◌,
  map, ◌==◌, nat_eq, string_eq, ltb, leb, filter, if◌then◌else◌, Result, ok, err, key_error,
}
use orxtra.Prelude.Ids.{Uuid, Decimal, Seconds}
use orxtra.Prelude.Dict.{Dict, get, put}
use orxtra.Session.Pricing.{Usage, TokenRates, compute_cost_usd}
use Prim.Native.String.{◌++◌ as join}

pub data BudgetExhaustionPolicy : Type 0 where
  block_new cancel_all timeout_grace unlimited : BudgetExhaustionPolicy

-- The fields of an agent definition that are read.
pub record AgentBudget : Type 0 where
  pub provider : Option String
  pub model : Option String
  pub category : Option String
  pub budget : Option Decimal

-- The fields of a task specification that are read.
pub record TaskBudget : Type 0 where
  pub name : String
  pub agent : Option String
  pub category : Option String
  pub budget : Option Decimal

pub record BudgetEvent : Type 0 where
  pub task_id : Uuid
  pub task_name : String
  pub budget : Decimal
  pub spent : Decimal

pub data Sent : Type 0 where
  budget_threshold_crossed : (workflow_id : Uuid) (budget_usd spent_usd : Decimal) → Sent
  budget_exhausted : (workflow_id : Uuid) → Sent

pub record Budgets : Type 0 where
  pub agents : Dict String AgentBudget
  pub categories : Dict String String
  pub pricing : Option (Dict String TokenRates)
  pub policy : BudgetExhaustionPolicy
  pub task_costs : Dict Uuid Decimal
  pub threshold_events : List BudgetEvent
  pub exhausted_events : List BudgetEvent
  pub budget_blocked : Bool
  pub aborts : List Seconds
  pub sent : List Sent

-- What the scheduler does where it takes a task up: its cost starts at zero.
unfoldable pub register_cost : (task_id : Uuid) → Budgets → Budgets
register_cost task_id s = record s { task_costs = put s.task_costs task_id 0 }

-- `a or b` on optional texts.
unfoldable pub or_text : Option String → Option String → Option String
or_text none b = b
or_text (some a) b = if a == "" then b else some a

unfoldable pub category_model : Option String → Budgets → Option String
category_model none s = none
category_model (some category) s = get s.categories category

-- An agent with a provider and a model of its own, or the model of its category.
unfoldable pub model_of :
    (provider model : Option String) (category : Option String) → Budgets → Option String
unfolding category_model
model_of (some provider) (some model) category s = some (join provider (join "/" model))
model_of (some provider) none category s = category_model category s
model_of none model category s = category_model category s

unfoldable pub agent_model : (task : TaskBudget) → Option AgentBudget → Budgets → Option String
unfolding model_of or_text
agent_model task none s = none
agent_model task (some agent) s =
    model_of agent.provider agent.model (or_text task.category agent.category) s

unfoldable pub agent_of : Option String → Budgets → Option AgentBudget
agent_of none s = none
agent_of (some name) s = get s.agents name

unfoldable pub resolve_model_key : (task : TaskBudget) → Budgets → Option String
unfolding agent_model agent_of
resolve_model_key task s = agent_model task (agent_of task.agent s) s

-- The budget of the task, or that of its agent; an empty agent name counts as none.
unfoldable pub effective_budget : (task : TaskBudget) → Budgets → Option Decimal
unfolding agent_of
effective_budget task s = elim task.budget [
  | some budget ↦ some budget
  | none ↦ elim (agent_of (or_text task.agent none) s) [ none ↦ none | some agent ↦ agent.budget ]
]

-- What the policy does to the scheduler when a budget is exhausted.
unfoldable pub exhaust : BudgetExhaustionPolicy → Budgets → Budgets
exhaust block_new s = record s { budget_blocked = true }
exhaust cancel_all s = record s { aborts = s.aborts ++ 0 ∷ [] }
exhaust timeout_grace s = record s { budget_blocked = true; aborts = s.aborts ++ 60 ∷ [] }
exhaust unlimited s = s

-- Comparisons with eight tenths of the budget, multiplied out.
unfoldable pub crosses : (budget spent cost : Decimal) → Bool
crosses budget spent cost = leb (8 * budget) (10 * spent) && ltb (10 * (spent - cost)) (8 * budget)

abbrev pub budget_event :
    (task_id : Uuid) (task : TaskBudget) (budget spent : Decimal) → BudgetEvent
budget_event task_id task budget spent = record {
  task_id = task_id;
  task_name = task.name;
  budget = budget;
  spent = spent;
}

unfoldable pub note_threshold :
    (task_id : Uuid) (task : TaskBudget) (budget spent cost : Decimal) → Budgets → Budgets
unfolding crosses
note_threshold task_id task budget spent cost s =
    if crosses budget spent cost
    then record s {
      threshold_events = s.threshold_events ++ budget_event task_id task budget spent ∷ [];
    }
    else s

unfoldable pub note_exhausted :
    (task_id : Uuid) (task : TaskBudget) (budget spent : Decimal) → Budgets → Budgets
unfolding exhaust
note_exhausted task_id task budget spent s =
    if leb budget spent
    then exhaust s.policy (record s {
      exhausted_events = s.exhausted_events ++ budget_event task_id task budget spent ∷ [];
    })
    else s

unfoldable pub enforce :
    (task_id : Uuid) (task : TaskBudget) (spent cost : Decimal) → Option Decimal → Budgets → Budgets
unfolding note_exhausted note_threshold
enforce task_id task spent cost none s = s
enforce task_id task spent cost (some budget) s =
    note_exhausted task_id task budget spent (note_threshold task_id task budget spent cost s)

-- A task that is not registered has no entry to add to.
unfoldable pub add_cost :
    (task_id : Uuid) (task : TaskBudget) (cost : Decimal)
    → Option Decimal
    → Budgets
    → Result (Unit {0}) × Budgets
unfolding enforce effective_budget
add_cost task_id task cost none s = (err key_error, s)
add_cost task_id task cost (some before) s =
    let spent = before + cost in
    (
      ok tt,
      enforce task_id task spent cost (effective_budget task s)
          (record s { task_costs = put s.task_costs task_id spent }),
    )

unfoldable pub with_cost :
    (task_id : Uuid) (task : TaskBudget) → Result Decimal → Budgets → Result (Unit {0}) × Budgets
unfolding add_cost
with_cost task_id task (err raised) s = (err raised, s)
with_cost task_id task (ok cost) s = add_cost task_id task cost (get s.task_costs task_id) s

unfoldable pub with_model :
    (task_id : Uuid) (task : TaskBudget) (usage : Usage)
    → Option String
    → Budgets
    → Result (Unit {0}) × Budgets
unfolding with_cost compute_cost_usd
with_model task_id task usage none s = (ok tt, s)
with_model task_id task usage (some model_key) s =
    with_cost task_id task (compute_cost_usd model_key usage s.pricing) s

unfoldable pub accumulate_cost :
    (task_id : Uuid) (task : TaskBudget) (usage : Usage) → Budgets → Result (Unit {0}) × Budgets
unfolding with_model resolve_model_key
accumulate_cost task_id task usage s = with_model task_id task usage (resolve_model_key task s) s

-- The first loop: one overseer event for each event of the task.
unfoldable pub threshold_messages : (task_id : Uuid) → List BudgetEvent → List Sent
threshold_messages task_id [] = []
threshold_messages task_id (e ∷ events) =
    let rest = threshold_messages task_id events in
    if e.task_id == task_id
    then budget_threshold_crossed e.task_id e.budget e.spent ∷ rest
    else rest

unfoldable pub exhausted_messages : (task_id : Uuid) → List BudgetEvent → List Sent
exhausted_messages task_id [] = []
exhausted_messages task_id (e ∷ events) =
    let rest = exhausted_messages task_id events in
    if e.task_id == task_id then budget_exhausted e.task_id ∷ rest else rest

abbrev pub others : (task_id : Uuid) → List BudgetEvent → List BudgetEvent
others task_id events = filter (λ e. not (e.task_id == task_id)) events

unfoldable pub send_budget_events : (task_id : Uuid) → Budgets → Budgets
unfolding threshold_messages exhausted_messages
send_budget_events task_id s = record s {
  threshold_events = others task_id s.threshold_events;
  exhausted_events = others task_id s.exhausted_events;
  sent =
      s.sent
      ++ threshold_messages task_id s.threshold_events
      ++ exhausted_messages task_id s.exhausted_events;
}
