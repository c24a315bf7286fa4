-- ===== src/Scheduler/Validator/Soundness.antt =====
-- Proofs on what an empty answer of `validate_task_tree` means
-- (scheduler/src/orxtra/scheduler/_validator.py).
use orxtra.Prelude.{
  ℕ, ◌≡◌, refl, ap, ◌∙◌, String, Bool, true, false, not, List, [], ◌∷◌, ◌++◌, ◌==◌, nat_eq,
  string_eq, ltb, All, contains, ok, >>=-eq-ok, arith,
}
use orxtra.Prelude.Dict.{Dict}
use orxtra.Prelude.Sets.{Distinct}
use orxtra.Scheduler.Graph.{Sorted, order, cycle, missing_key, build_graph, topological_sort}
use orxtra.Scheduler.Graph.Build.{Targets, Declared, build_graph-IsGraph}
use orxtra.Scheduler.Graph.Kahn.{Ordered}
use orxtra.Scheduler.Graph.Order.{topological_sort_order}
use orxtra.Scheduler.Validator.{
  TaskSpec, Tasks, nil, cons, leaf, tree, WorkflowConfig, Problem, note, fields_of, names_of,
  count_execution_modes, check_task, validate_task, validate_tasks, target_problems,
  reference_problems, with_sort, dependency_cycle, validate_dependencies,
  validate_variable_collisions, validate_task_tree, unknown_source, unknown_target,
  duplicate_task_name, no_execution_mode, multiple_execution_modes,
}

none_left : (xs ys : List Problem) → xs ++ ys ≡ [] → (xs ≡ []) × (ys ≡ [])
none_left [] ys h = (refl, h)
none_left (x ∷ xs) ys h = cc

quiet : (b : Bool) (p : Problem) → note b p ≡ [] → b ≡ false
quiet true p h = cc
quiet false p h = refl

one_only : (n : ℕ) → (n == 0) ≡ false → ltb 1 n ≡ false → n ≡ 1
one_only n some_set few_set = ground arith

check_task_quiet :
    (headless : Bool) (seen : List String) (task : TaskSpec)
    → check_task headless seen task ≡ []
    → (count_execution_modes task ≡ 1) × (contains seen (fields_of task).name ≡ false)
unfolding check_task
check_task_quiet headless seen task h =
    let modes = count_execution_modes task in
    let name = (fields_of task).name in
    let (to_decision, duplicate) = none_left _ _ h in
    let (to_refinement, _) = none_left _ _ to_decision in
    let (to_conditional, _) = none_left _ _ to_refinement in
    let (to_agent, _) = none_left _ _ to_conditional in
    let (to_modes, _) = none_left _ _ to_agent in
    let (none_set, many_set) = none_left _ _ to_modes in
    let not_none = quiet (modes == 0) (no_execution_mode name) none_set in
    let not_many = quiet (ltb 1 modes) (multiple_execution_modes name) many_set in
    (
      one_only modes not_none not_many,
      quiet (contains seen name) (duplicate_task_name name) duplicate,
    )

validate_task_quiet :
    (headless : Bool) (seen : List String) (task : TaskSpec)
    → validate_task headless task seen ≡ []
    → check_task headless seen task ≡ []
unfolding validate_task
validate_task_quiet headless seen (leaf f) h = h
validate_task_quiet headless seen (tree f subtasks) h =
    (none_left (check_task headless seen (tree f subtasks)) (validate_tasks headless subtasks [])
      h).0

-- Each task of the list has one execution mode.
abbrev pub OneMode : Tasks → Type 0
OneMode nil = Unit
OneMode (cons task tasks) = (count_execution_modes task ≡ 1) × OneMode tasks

apart :
    (name : String) (seen names : List String)
    → All (λ n. contains (name ∷ seen) n ≡ false) names
    → (contains names name ≡ false) × All (λ n. contains seen n ≡ false) names
apart name seen [] a = (refl, tt)
apart name seen (n ∷ names) a =
    ground (arith, string_eq.beq_iff name n, string_eq.beq_iff n name, apart name seen names)

validate_tasks_quiet :
    (headless : Bool) (tasks : Tasks) (seen : List String)
    → validate_tasks headless tasks seen ≡ []
    → OneMode tasks
      × Distinct (names_of tasks)
      × All (λ n. contains seen n ≡ false) (names_of tasks)
unfolding validate_tasks
validate_tasks_quiet headless nil seen h = (tt, tt, tt)
validate_tasks_quiet headless (cons task tasks) seen h =
    let name = (fields_of task).name in
    let (first, rest) =
      none_left (validate_task headless task seen) (validate_tasks headless tasks (name ∷ seen))
        h in
    let here = check_task_quiet headless seen task (validate_task_quiet headless seen task first) in
    let (modes, distinct, unseen) = validate_tasks_quiet headless tasks (name ∷ seen) rest in
    let (new, later) = apart name seen (names_of tasks) unseen in
    ((here.0, modes), (new, distinct), (here.1, later))

target_problems_quiet :
    (names deps : List String) → target_problems names deps ≡ [] → Targets names deps
unfolding target_problems
target_problems_quiet names [] h = tt
target_problems_quiet names (dep ∷ deps) h =
    let (first, rest) =
      none_left (note (not (contains names dep)) (unknown_target dep)) (target_problems names deps)
        h in
    let known = quiet (not (contains names dep)) (unknown_target dep) first in
    (ground arith, target_problems_quiet names deps rest)

reference_problems_quiet :
    (names : List String) (dependencies : Dict String (List String))
    → reference_problems names dependencies ≡ []
    → Declared names dependencies
unfolding reference_problems
reference_problems_quiet names [] h = tt
reference_problems_quiet names ((source, deps) ∷ rest) h =
    let (more, others) = none_left _ (reference_problems names rest) h in
    let (first, targets) = none_left _ (target_problems names deps) more in
    let known = quiet (not (contains names source)) (unknown_source source) first in
    (
      ground arith,
      target_problems_quiet names deps targets,
      reference_problems_quiet names rest others,
    )

snoc_not_nil : (xs : List Problem) (x : Problem) → xs ++ x ∷ [] ≡ [] → ⊥
snoc_not_nil [] x h = cc
snoc_not_nil (y ∷ xs) x h = cc

ok_injective : (xs ys : List Problem) → ok xs ≡ ok ys → xs ≡ ys
ok_injective xs ys h = cc

with_sort_quiet :
    (problems : List Problem) (s : Sorted)
    → with_sort problems s ≡ ok []
    → (problems ≡ []) × ((xs : List String) × (s ≡ order xs))
unfolding with_sort
with_sort_quiet problems (order xs) h = (cc, (xs, refl))
with_sort_quiet problems (cycle c) h =
    absurd (snoc_not_nil problems (dependency_cycle c) (ok_injective _ _ h))
with_sort_quiet problems missing_key h = cc
with_sort_quiet problems _ h = cc

-- What the scheduler may rely on when the validator reports nothing: the tasks have different names
-- and one execution mode each, the dependencies name tasks only, and the sort of their graph returns
-- an order that holds exactly the tasks, each once, behind its dependencies.
abbrev pub IsRunnable : WorkflowConfig → Type 0
IsRunnable config =
    let names = names_of config.tasks in
    let g = build_graph names config.dependencies in
    OneMode config.tasks
    × Distinct names
    × Declared names config.dependencies
    × ((xs : List String) × (topological_sort g ≡ order xs)
        × Distinct xs
        × ((x : String) → contains xs x ≡ contains names x)
        × Ordered g [] xs)

-- If `validate_task_tree` returns no error, the top-level tasks have different names and one execution
-- mode each, the dependencies name tasks only, and `topological_sort` of their graph returns an order
-- that holds exactly the tasks, each once and behind its dependencies.
pub validate_task_tree-IsRunnable :
    (config : WorkflowConfig) (headless : Bool)
    → validate_task_tree config headless ≡ ok []
    → IsRunnable config
unfolding validate_task_tree validate_dependencies
validate_task_tree-IsRunnable config headless h =
    let names = names_of config.tasks in
    let g = build_graph names config.dependencies in
    let (problems, sorted, all) =
      >>=-eq-ok (validate_dependencies config)
        (λ dependency_problems. ok (
          validate_tasks headless config.tasks []
          ++ dependency_problems
          ++ validate_variable_collisions config.tasks))
        h in
    let (most, _) =
      none_left _ (validate_variable_collisions config.tasks) (ok_injective _ _ all) in
    let (tasks_quiet, deps_quiet) = none_left _ problems most in
    let (modes, distinct, _) = validate_tasks_quiet headless config.tasks [] tasks_quiet in
    let (references, (xs, ordered)) =
      with_sort_quiet (reference_problems names config.dependencies) (topological_sort g)
        (sorted ∙ ap (λ ps. ok ps) deps_quiet) in
    let declared = reference_problems_quiet names config.dependencies references in
    let (graph, nodes) = build_graph-IsGraph names config.dependencies declared in
    let (once, complete, behind) = topological_sort_order g xs graph ordered in
    (modes, distinct, declared, (xs, ordered, once, (λ x. complete x ∙ nodes x), behind))
