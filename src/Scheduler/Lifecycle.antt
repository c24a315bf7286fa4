-- ===== src/Scheduler/Lifecycle.antt =====
-- The state of the scheduler that the lifecycle handlers use, and what they call on it
-- (scheduler/src/orxtra/scheduler/_executor.py and _enforcement.py). The trace is the in-memory
-- backend, and a `TaskState` is the status of that name.
pub mod Constraints
pub mod Handlers
pub mod Creation
pub mod Agreement
pub mod Branches
pub mod Completion
pub mod Refusals
pub mod LeftBehind
use orxtra.Prelude.{
  ℕ, String, Bool, true, false, not, ◌&&◌, Option, none, some, List, [], ◌∷◌, ◌++◌, map, ◌==◌, Eq,
  string_eq, nat_eq, is_none, any, filter, contains, if◌then◌else◌, Result, ok, err, ◌≡◌, ◌↔◌, refl,
  ap,
}
use orxtra.Prelude.Ids.{Uuid, Time, Decimal}
use orxtra.Prelude.Json.{Json}
use orxtra.Prelude.Dict.{Dict, get, put}
use orxtra.Trace.Transitions.{TaskStatus}
use orxtra.Trace.Store.{Store}
use orxtra.Trace.Tasks.{transition_task}
use orxtra.Scheduler.Locks.{Claims, release}

-- The fields of an agent definition that the handlers read.
pub record AgentDefaults : Type 0 where
  pub allow : List String
  pub write_paths : Option (List String)
  pub budget : Option Decimal
  pub timeout : Option ℕ

-- The fields of a `TaskSpec` that the handlers set or read. A check is the data of its execution.
pub record TaskSpec : Type 0 where
  pub name : String
  pub prechecks : List Json
  pub postchecks : List Json
  pub agent : Option String
  pub task_prompt : Option String
  pub wait_for : Option String
  pub category : Option String
  pub timeout : Option ℕ
  pub context_refinement : Option Bool
  pub retry : ℕ
  pub retry_resume : Option Bool
  pub retry_inject_failure : Option Bool
  pub budget : Option Decimal
  pub write_paths : Option (List String)
  pub on_success : Option String

-- An entry of `_task_results_meta`.
pub record ResultMeta : Type 0 where
  pub passed : Bool
  pub duration_seconds : ℕ
  pub retries_used : ℕ

abbrev parent_beq : Option Uuid → Option Uuid → Bool
parent_beq none none = true
parent_beq none (some b) = false
parent_beq (some a) none = false
parent_beq (some a) (some b) = a == b

parent_beq_iff : (a b : Option Uuid) → (parent_beq a b ≡ true) ↔ (a ≡ b)
parent_beq_iff none none = (λ h. refl, λ h. refl)
parent_beq_iff none (some b) = (λ h. cc, λ h. cc)
parent_beq_iff (some a) none = (λ h. cc, λ h. cc)
parent_beq_iff (some a) (some b) =
    (λ h. ap some ((nat_eq.beq_iff a b).0 h), λ h. (nat_eq.beq_iff a b).1 cc)

instance abbrev parent_eq : Eq (Option Uuid)
parent_eq = record { beq = parent_beq; beq_iff = parent_beq_iff }

-- Values by task name, in the scope of a parent.
abbrev pub Scoped : Type 0 → Type 0
Scoped A = Dict (Option Uuid) (Dict String A)

pub record Scheduler : Type 0 where
  pub run_id : Uuid
  pub run_principal_id : Uuid
  pub agents : Dict String AgentDefaults
  pub mechanical_constraints : List (String × String)
  pub task_states : Dict Uuid TaskStatus
  pub task_specs : Dict Uuid TaskSpec
  pub task_parents : Dict Uuid (Option Uuid)
  pub task_children : Dict Uuid (List Uuid)
  pub task_costs : Dict Uuid Decimal
  pub task_outputs : Scoped (Option String)
  pub task_structured_outputs : Scoped (Option Json)
  pub task_results_meta : Scoped ResultMeta
  pub active_tasks : Dict String Uuid
  pub pending_end_task_message : Dict Uuid String
  pub pending_await : Dict String Uuid
  pub pending_advisories : List (List String)
  pub file_lock_registry : Claims
  pub budget_blocked : Bool
  pub callbacks : List (String × Uuid)
  pub trace : Store

-- A handler that may raise.
abbrev pub Handler : Type 0 → Type 0
Handler A = Scheduler → Result A × Scheduler

-- The rest of a handler, which an exception skips.
abbrev pub continue : {A B : Type 0} → Result A × Scheduler → (A → Handler B) → Result B × Scheduler
continue (err raised, s) next = (err raised, s)
continue (ok returned, s) next = next returned s

abbrev or_else {ℓ} : {A : Type ℓ} → Option A → A → A
or_else none a = a
or_else (some b) a = b

-- `self._task_parents.get(task_id)`
unfoldable pub parent_of : Uuid → Scheduler → Option Uuid
parent_of task_id s = or_else (get s.task_parents task_id) none

-- `self._task_children.get(task_id, [])`
unfoldable pub children_of : Uuid → Scheduler → List Uuid
children_of task_id s = or_else (get s.task_children task_id) []

-- An entry of the scope's dictionary, which is made where there is none.
abbrev put_scoped : {A : Type 0} → Option Uuid → String → A → Scoped A → Scoped A
put_scoped parent name value d = put d parent (put (or_else (get d parent) []) name value)

unfoldable pub complete_task :
    (task_id : Uuid) (task_name : String) (output : Option String) → Scheduler → Scheduler
unfolding parent_of release
complete_task task_id task_name output s =
    let parent = parent_of task_id s in
    record s {
      task_states = put s.task_states task_id TaskStatus.completed;
      file_lock_registry = release task_id s.file_lock_registry;
      task_outputs = put_scoped parent task_name output s.task_outputs;
      task_structured_outputs = put_scoped parent task_name none s.task_structured_outputs;
      task_results_meta =
          put_scoped parent task_name
            (record { passed = true; duration_seconds = 0; retries_used = 0 }) s.task_results_meta;
    }

pub record CheckResult : Type 0 where
  pub passed : Bool
  pub message : String

-- The fields of a `CheckContext` that are not constant.
pub record CheckContext : Type 0 where
  pub agent_output : Option String
  pub run_id : Uuid
  pub task_name : String
  pub task_id : Uuid
  pub parent_task_id : Option Uuid

abbrev pub all_passed : List CheckResult → Bool
all_passed results = not (any (λ (cr : CheckResult). not cr.passed) results)

abbrev pub failures : List CheckResult → List String
failures results =
    map (λ (cr : CheckResult). cr.message) (filter (λ (cr : CheckResult). not cr.passed) results)

abbrev pub RunChecks : Type 0
RunChecks =
    (checks : List Json) (context : CheckContext) (stage : String) → Result (List CheckResult)

-- `run_checks`, unless the list is empty.
unfoldable pub run_or_pass :
    (run_checks : RunChecks) (note : String) (context : CheckContext) (stage : String)
    → List Json
    → Result (List CheckResult)
run_or_pass run_checks note context stage [] = ok (record { passed = true; message = note } ∷ [])
run_or_pass run_checks note context stage (c ∷ checks) = run_checks (c ∷ checks) context stage

unfoldable pub run_prechecks :
    (run_checks : RunChecks) (task : TaskSpec) (task_id : Uuid)
    → Scheduler
    → Result (List CheckResult)
unfolding run_or_pass parent_of
run_prechecks run_checks task task_id s =
    run_or_pass run_checks "No prechecks defined"
      (record {
        agent_output = none;
        run_id = s.run_id;
        task_name = task.name;
        task_id = task_id;
        parent_task_id = parent_of task_id s;
      })
      "precheck" task.prechecks

unfoldable pub run_postchecks :
    (run_checks : RunChecks) (task : TaskSpec) (task_id : Uuid)
    → Scheduler
    → Result (List CheckResult)
unfolding run_or_pass parent_of
run_postchecks run_checks task task_id s =
    run_or_pass run_checks "No postchecks defined"
      (record {
        agent_output = some (or_else (get s.pending_end_task_message task_id) "");
        run_id = s.run_id;
        task_name = task.name;
        task_id = task_id;
        parent_task_id = parent_of task_id s;
      })
      "postcheck" task.postchecks
