-- ===== src/Scheduler/Validator.antt =====
-- `validate_task_tree` (scheduler/src/orxtra/scheduler/_validator.py). A message is a constructor with
-- the names that it mentions, and a call that appends messages returns those that it appends.
pub mod Soundness
pub mod Crash
use Prim.Native.String.{compare, ◌++◌ as join}
use text.Mathlib.Text.{is_le}
use orxtra.Prelude.{
  ℕ, zero, suc, ◌+◌, String, Bool, true, false, not, ◌&&◌, ◌||◌, Option, none, some, List, [], ◌∷◌,
  ◌++◌, map, ◌==◌, nat_eq, string_eq, ltb, is_none, filter, contains, if◌then◌else◌, Result, ok,
  err, key_error, runtime_error, ◌>>=◌,
}
use orxtra.Prelude.Dict.{Dict}
use orxtra.Prelude.Sets.{to_set}
use orxtra.Scheduler.Graph.{
  ℤ, pos, negsuc, Sorted, order, cycle, missing_key, build_graph, topological_sort,
}

-- The fields of a `TaskSpec` that the validator reads, `subtasks` excepted.
pub record Fields : Type 0 where
  pub name : String
  pub agent : Option String
  pub task_prompt : Option String
  pub callable : Option String
  pub wait_for : Option String
  pub decision_point : Option Bool
  pub variables : List String
  pub timeout : Option ℤ
  pub context_refinement : Option Bool
  pub retry : ℤ
  pub retry_resume : Option Bool
  pub retry_inject_failure : Option Bool
  pub for_each : Option String
  pub for_each_abort_on_failure : Option Bool
  pub max_concurrency : Option ℤ

mutual
  -- A task whose `subtasks` are `None`, and one that has a list of them.
  pub data TaskSpec : Type 0 where
    leaf : Fields → TaskSpec
    tree : Fields → Tasks → TaskSpec

  pub data Tasks : Type 0 where
    nil : Tasks
    cons : TaskSpec → Tasks → Tasks

pub record WorkflowConfig : Type 0 where
  pub tasks : Tasks
  pub dependencies : Dict String (List String)

pub data Problem : Type 0 where
  no_execution_mode multiple_execution_modes : (task : String) → Problem
  missing_task_prompt missing_agent missing_timeout missing_context_refinement :
      (task : String) → Problem
  missing_retry_resume missing_retry_inject_failure : (task : String) → Problem
  missing_for_each_abort_on_failure missing_max_concurrency : (task : String) → Problem
  refinement_without_overseer decision_without_overseer : (task : String) → Problem
  duplicate_task_name : (task : String) → Problem
  unknown_source unknown_target : (task : String) → Problem
  dependency_cycle : List String → Problem
  variable_collision : (variable : String) → Problem

abbrev pub fields_of : TaskSpec → Fields
fields_of (leaf f) = f
fields_of (tree f subtasks) = f

abbrev pub has_subtasks : TaskSpec → Bool
has_subtasks (leaf f) = false
has_subtasks (tree f subtasks) = true

-- `errors.append(problem)` under a condition.
abbrev pub note : Bool → Problem → List Problem
note condition problem = if condition then problem ∷ [] else []

abbrev pub one_if : Bool → ℕ
one_if b = if b then 1 else 0

abbrev pub is_set {ℓ} : {A : Type ℓ} → Option A → Bool
is_set o = not (is_none o)

unfoldable pub count_execution_modes : TaskSpec → ℕ
count_execution_modes task =
    let f = fields_of task in
    one_if (is_set f.agent || is_set f.task_prompt)
    + one_if (is_set f.callable)
    + one_if (has_subtasks task)
    + one_if (is_set f.wait_for)
    + one_if (is_set f.decision_point)

abbrev pub has_agent_mode : Fields → Bool
has_agent_mode f = is_set f.agent && is_set f.task_prompt

abbrev pub validate_agent_fields : Fields → List Problem
validate_agent_fields f =
    note (is_set f.agent && is_none f.task_prompt) (missing_task_prompt f.name)
    ++ note (is_set f.task_prompt && is_none f.agent) (missing_agent f.name)
    ++ note (has_agent_mode f && is_none f.timeout) (missing_timeout f.name)
    ++ note (has_agent_mode f && is_none f.context_refinement) (missing_context_refinement f.name)

abbrev pub is_positive : ℤ → Bool
is_positive (pos n) = ltb 0 n
is_positive (negsuc n) = false

abbrev pub validate_conditional_fields : Fields → List Problem
validate_conditional_fields f =
    note (is_positive f.retry && is_none f.retry_resume) (missing_retry_resume f.name)
    ++ note (is_positive f.retry && is_none f.retry_inject_failure)
        (missing_retry_inject_failure f.name)
    ++ note (is_set f.for_each && is_none f.for_each_abort_on_failure)
        (missing_for_each_abort_on_failure f.name)
    ++ note (is_set f.for_each && is_none f.max_concurrency) (missing_max_concurrency f.name)

-- `if value:` on an optional Boolean.
abbrev pub is_truthy : Option Bool → Bool
is_truthy none = false
is_truthy (some b) = b

-- The part of `_validate_task` before the subtasks.
unfoldable pub check_task : (headless : Bool) (seen_names : List String) → TaskSpec → List Problem
unfolding count_execution_modes
check_task headless seen_names task =
    let f = fields_of task in
    let modes = count_execution_modes task in
    note (modes == 0) (no_execution_mode f.name)
    ++ note (ltb 1 modes) (multiple_execution_modes f.name)
    ++ validate_agent_fields f
    ++ validate_conditional_fields f
    ++ note (headless && is_truthy f.context_refinement) (refinement_without_overseer f.name)
    ++ note (headless && is_truthy f.decision_point) (decision_without_overseer f.name)
    ++ note (contains seen_names f.name) (duplicate_task_name f.name)

-- The subtasks of a task have a set of names of their own.
unfoldable mutual
  pub validate_task : (headless : Bool) → TaskSpec → (seen_names : List String) → List Problem
  validate_task headless (leaf f) seen_names = check_task headless seen_names (leaf f)
  validate_task headless (tree f subtasks) seen_names =
      check_task headless seen_names (tree f subtasks) ++ validate_tasks headless subtasks []

  pub validate_tasks : (headless : Bool) → Tasks → (seen_names : List String) → List Problem
  validate_tasks headless nil seen_names = []
  validate_tasks headless (cons task tasks) seen_names =
      validate_task headless task seen_names
      ++ validate_tasks headless tasks ((fields_of task).name ∷ seen_names)

abbrev pub names_of : Tasks → List String
names_of nil = []
names_of (cons task tasks) = (fields_of task).name ∷ names_of tasks

-- `errors.extend` over the targets of a source.
unfoldable pub target_problems : (task_names deps : List String) → List Problem
target_problems task_names [] = []
target_problems task_names (dep ∷ deps) =
    note (not (contains task_names dep)) (unknown_target dep) ++ target_problems task_names deps

unfoldable pub reference_problems :
    (task_names : List String) → Dict String (List String) → List Problem
unfolding target_problems
reference_problems task_names [] = []
reference_problems task_names ((source_name, deps) ∷ rest) =
    note (not (contains task_names source_name)) (unknown_source source_name)
    ++ target_problems task_names deps
    ++ reference_problems task_names rest

-- Only a `CycleError` is caught.
unfoldable pub with_sort : List Problem → Sorted → Result (List Problem)
with_sort problems (order xs) = ok problems
with_sort problems (cycle c) = ok (problems ++ dependency_cycle c ∷ [])
with_sort problems missing_key = err key_error
with_sort problems _ = err runtime_error

unfoldable pub validate_dependencies : WorkflowConfig → Result (List Problem)
unfolding with_sort
validate_dependencies config =
    let task_names = names_of config.tasks in
    with_sort (reference_problems task_names config.dependencies)
      (topological_sort (build_graph task_names config.dependencies))

abbrev pub output_vars : Tasks → List String
output_vars nil = []
output_vars (cons task tasks) =
    let name = (fields_of task).name in
    join name "_output" ∷ join name "_text" ∷ join name "_result" ∷ output_vars tasks

abbrev pub workflow_vars : Tasks → List String
workflow_vars nil = []
workflow_vars (cons task tasks) = (fields_of task).variables ++ workflow_vars tasks

unfoldable pub insert_text : String → List String → List String
insert_text x [] = x ∷ []
insert_text x (y ∷ ys) = if is_le (compare x y) then x ∷ y ∷ ys else y ∷ insert_text x ys

-- `sorted` on texts.
unfoldable pub sort_texts : List String → List String
unfolding insert_text
sort_texts [] = []
sort_texts (x ∷ xs) = insert_text x (sort_texts xs)

unfoldable pub validate_variable_collisions : Tasks → List Problem
unfolding sort_texts to_set
validate_variable_collisions tasks =
    map variable_collision
      (sort_texts (to_set (filter (contains (output_vars tasks)) (workflow_vars tasks))))

unfoldable pub validate_task_tree : WorkflowConfig → (headless : Bool) → Result (List Problem)
unfolding validate_tasks validate_dependencies validate_variable_collisions
validate_task_tree config headless = validate_dependencies config >>= λ dependency_problems. ok (
    validate_tasks headless config.tasks []
    ++ dependency_problems
    ++ validate_variable_collisions config.tasks)
