-- ===== src/Scheduler/Lifecycle/Creation.antt =====
-- The handlers that create tasks, and `handle_await_task`
-- (scheduler/src/orxtra/scheduler/_lifecycle_handlers.py), with `_analyze_structural_advisories`
-- (_enforcement.py). The id that the trace mints and the time are arguments.
use orxtra.Prelude.{
  ℕ, String, Bool, Option, none, some, List, [], ◌∷◌, ◌++◌, ◌==◌, string_eq, nat_eq, any, contains,
  is_none, if◌then◌else◌, Result, ok, err, tool_error,
}
use orxtra.Prelude.Ids.{Uuid, Decimal}
use orxtra.Prelude.Json.{Json}
use orxtra.Prelude.Dict.{Dict, get, put}
use orxtra.Trace.Transitions.{TaskStatus}
use orxtra.Trace.Tasks.{create_task}
use orxtra.Scheduler.Locks.{Claims, claim}
use orxtra.Scheduler.Lifecycle.{AgentDefaults, TaskSpec, Scheduler, Handler, continue, children_of}
use orxtra.Scheduler.Lifecycle.Constraints.{is_nonempty}
use orxtra.Scheduler.Lifecycle.Handlers.{Reply, made, will_await, check_active_task}

-- The fields of `CreateTaskParams` that are used.
pub record CreateTaskParams : Type 0 where
  pub name : String
  pub agent : String
  pub task_prompt : String
  pub prechecks : List Json
  pub postchecks : List Json
  pub timeout : ℕ
  pub context_refinement : Bool
  pub budget : Option Decimal
  pub write_paths : Option (List String)
  pub category : Option String
  pub retry : ℕ
  pub retry_resume : Option Bool
  pub retry_inject_failure : Option Bool

-- An agent default where the call gives nothing.
abbrev or_default {ℓ} : {A : Type ℓ} → Option A → Option A → Option A
or_default none default = default
or_default (some a) default = some a

abbrev no_defaults : AgentDefaults
no_defaults = record { allow = []; write_paths = none; budget = none; timeout = none }

abbrev pub agent_defaults : (agent : String) → Option AgentDefaults → AgentDefaults
agent_defaults agent none = no_defaults
agent_defaults agent (some agent_def) = if agent == "" then no_defaults else agent_def

-- The specification of a created task. Its timeout is that of the call, which always has one.
unfoldable pub spec_of : CreateTaskParams → AgentDefaults → TaskSpec
spec_of parsed defaults = record {
  name = parsed.name;
  prechecks = parsed.prechecks;
  postchecks = parsed.postchecks;
  agent = some parsed.agent;
  task_prompt = some parsed.task_prompt;
  wait_for = none;
  category = parsed.category;
  timeout = some parsed.timeout;
  context_refinement = some parsed.context_refinement;
  retry = parsed.retry;
  retry_resume = parsed.retry_resume;
  retry_inject_failure = parsed.retry_inject_failure;
  budget = or_default parsed.budget defaults.budget;
  write_paths = or_default parsed.write_paths defaults.write_paths;
  on_success = none;
}

-- The entries of a new task in the scheduler's dictionaries.
unfoldable pub register_task : (parent_id task_id : Uuid) (spec : TaskSpec) → Scheduler → Scheduler
unfolding children_of
register_task parent_id task_id spec s = record s {
  task_states = put s.task_states task_id TaskStatus.created;
  task_specs = put s.task_specs task_id spec;
  task_parents = put s.task_parents task_id (some parent_id);
  task_children = put s.task_children parent_id (children_of parent_id s ++ task_id ∷ []);
  task_costs = put s.task_costs task_id 0;
}

abbrev write_tools : List String
write_tools = "write" ∷ "edit" ∷ "delete" ∷ "move" ∷ "copy" ∷ "mkdir" ∷ "set_executable" ∷ []

abbrev read_only : (name : String) → Option AgentDefaults → List String
read_only name none = []
read_only name (some agent_def) =
    if any (λ t. contains write_tools t) agent_def.allow then [] else name ∷ []

abbrev read_only_of : (agents : Dict String AgentDefaults) → Option TaskSpec → List String
read_only_of agents none = []
read_only_of agents (some spec) = elim spec.agent [
  | none ↦ []
  | some agent ↦ read_only spec.name (get agents agent)
]

unfoldable pub read_only_names : Scheduler → (task_ids : List Uuid) → List String
read_only_names s [] = []
read_only_names s (i ∷ ids) = read_only_of s.agents (get s.task_specs i) ++ read_only_names s ids

-- An advisory is the list of its task names.
unfoldable pub advise : (parent_id : Uuid) → Scheduler → Scheduler
unfolding read_only_names children_of
advise parent_id s =
    let names = read_only_names s (children_of parent_id s) in
    if is_nonempty names
    then record s { pending_advisories = s.pending_advisories ++ names ∷ [] }
    else s

-- What follows the claim of the write paths; the task is registered already.
unfoldable pub after_claim : (parent_id task_id : Uuid) → Result (Unit {0}) × Claims → Handler Reply
unfolding advise
after_claim parent_id task_id (err raised, claims) s =
    (err tool_error, record s { file_lock_registry = claims })
after_claim parent_id task_id (ok _, claims) s =
    (ok (made task_id), advise parent_id (record s { file_lock_registry = claims }))

unfoldable pub claim_paths : (parent_id task_id : Uuid) → Option (List String) → Handler Reply
unfolding after_claim advise claim
claim_paths parent_id task_id none s = (ok (made task_id), advise parent_id s)
claim_paths parent_id task_id (some []) s = (ok (made task_id), advise parent_id s)
claim_paths parent_id task_id (some (p ∷ ps)) s =
    after_claim parent_id task_id (claim task_id (p ∷ ps) s.file_lock_registry) s

abbrev pub plain_spec : (name : String) → TaskSpec
plain_spec name = record {
  name = name;
  prechecks = [];
  postchecks = [];
  agent = none;
  task_prompt = none;
  wait_for = none;
  category = none;
  timeout = none;
  context_refinement = none;
  retry = 0;
  retry_resume = none;
  retry_inject_failure = none;
  budget = none;
  write_paths = none;
  on_success = none;
}

module _ (fresh now : ℕ) where
  -- `create_task` of the trace, and the state of the new task.
  unfoldable pub enter :
      (parent_id : Uuid) (name task_type : String) (config : Option Json) → Scheduler → Scheduler
  unfolding create_task
  enter parent_id name task_type config s = record s {
    trace = (create_task fresh now s.run_id (some parent_id) name task_type config s.trace).1;
  }

  unfoldable pub create_under : (params : CreateTaskParams) (parent_id : Uuid) → Handler Reply
  unfolding enter register_task claim_paths spec_of
  create_under params parent_id s =
      let spec = spec_of params (agent_defaults params.agent (get s.agents params.agent)) in
      if s.budget_blocked
      then (err tool_error, s)
      else claim_paths parent_id fresh spec.write_paths
          (register_task parent_id fresh spec (enter parent_id params.name "agent" none s))

  unfoldable pub handle_create_task :
      (session_id : String) (params : CreateTaskParams) → Handler Reply
  unfolding create_under check_active_task
  handle_create_task session_id params s =
      continue (check_active_task session_id s, s)
        (λ parent_id s'. create_under params parent_id s')

  -- `config_data` is the object of the description and the goals.
  unfoldable pub handle_create_workflow :
      (session_id name : String) (config_data : Json) (postchecks : List Json)
      (budget : Option Decimal)
      → Handler Reply
  unfolding enter register_task check_active_task
  handle_create_workflow session_id name config_data postchecks budget s =
      continue (check_active_task session_id s, s)
        (λ parent_id s'.
          if s'.budget_blocked
          then (err tool_error, s')
          else let spec = record (plain_spec name) { postchecks = postchecks; budget = budget } in
            let u =
              register_task parent_id fresh spec
                (enter parent_id name "workflow" (some config_data) s') in
            (ok (made fresh), record u { task_children = put u.task_children fresh [] }))

  unfoldable pub handle_create_wait_for :
      (session_id name event_name : String) (timeout : ℕ) → Handler Reply
  unfolding enter register_task check_active_task
  handle_create_wait_for session_id name event_name timeout s =
      continue (check_active_task session_id s, s)
        (λ parent_id s'. (
          ok (made fresh),
          register_task parent_id fresh
              (record (plain_spec name) { wait_for = some event_name; timeout = some timeout })
              (enter parent_id name "wait_for" none s'),
        ))

unfoldable pub handle_await_task : (session_id : String) (task_id : Uuid) → Handler Reply
handle_await_task session_id task_id s =
    if is_none (get s.task_states task_id) then (err tool_error, s) else (
      ok (will_await task_id),
      record s { pending_await = put s.pending_await session_id task_id },
    )
