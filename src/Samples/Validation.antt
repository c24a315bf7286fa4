-- ===== src/Samples/Validation.antt =====
-- Applications of the theorems on the validator (scheduler/src/orxtra/scheduler/_validator.py).
use orxtra.Prelude.{
  ◌≡◌, refl, String, List, none, some, false, [], ◌∷◌, ok, err, key_error, string_eq,
}
use orxtra.Prelude.Dict.{get, has, put}
use orxtra.Prelude.Dict.Unique.{Unique}
use orxtra.Scheduler.Graph.{pos, topological_sort, build_graph}
use orxtra.Scheduler.Validator.{
  Fields, leaf, nil, cons, WorkflowConfig, Problem, validate_task_tree, validate_dependencies,
  validate_variable_collisions, validate_tasks, check_task, reference_problems,
}
use orxtra.Scheduler.Validator.Soundness.{IsRunnable, validate_task_tree-IsRunnable}
use orxtra.Scheduler.Validator.Crash.{validate_task_tree_unknown, validate_task_tree_total}

abbrev script : String → Fields
script name = record {
  name = name;
  agent = none;
  task_prompt = none;
  callable = some "job:main";
  wait_for = none;
  decision_point = none;
  variables = "branch" ∷ [];
  timeout = none;
  context_refinement = none;
  retry = pos 0;
  retry_resume = none;
  retry_inject_failure = none;
  for_each = none;
  for_each_abort_on_failure = none;
  max_concurrency = none;
}

abbrev pipeline : WorkflowConfig
pipeline = record {
  tasks = cons (leaf (script "build")) (cons (leaf (script "test")) nil);
  dependencies = ("test", "build" ∷ []) ∷ [];
}

abbrev misspelt : WorkflowConfig
misspelt = record {
  tasks = cons (leaf (script "build")) (cons (leaf (script "test")) nil);
  dependencies = ("test", "biuld" ∷ []) ∷ [];
}

pipeline_quiet : validate_task_tree pipeline false ≡ ok []
unfolding validate_task_tree validate_tasks validate_dependencies validate_variable_collisions
    topological_sort get put check_task build_graph reference_problems
pipeline_quiet = refl

validate_task_tree-IsRunnable_example : IsRunnable pipeline
validate_task_tree-IsRunnable_example = validate_task_tree-IsRunnable pipeline false pipeline_quiet

validate_task_tree_total_example :
    (problems : List Problem) × (validate_task_tree pipeline false ≡ ok problems)
validate_task_tree_total_example = validate_task_tree_total pipeline false (refl, (refl, tt), tt)

misspelt-Unique : Unique misspelt.dependencies
unfolding has
misspelt-Unique = (refl, tt)

misspelt_found : get misspelt.dependencies "test" ≡ some ("biuld" ∷ [])
unfolding get
misspelt_found = refl

misspelt_source : has misspelt.dependencies "biuld" ≡ false
unfolding has
misspelt_source = refl

validate_task_tree_unknown_example : validate_task_tree misspelt false ≡ err key_error
validate_task_tree_unknown_example =
    validate_task_tree_unknown misspelt false "test" "biuld" ("biuld" ∷ []) misspelt-Unique
      misspelt_found refl refl misspelt_source
