-- ===== src/Scheduler/Validator/Crash.antt =====
-- Proofs on the exceptions of `validate_task_tree` (scheduler/src/orxtra/scheduler/_validator.py).
use orxtra.Prelude.{
  ◌≡◌, refl, ap, ◌∙◌, subst, inl, inr, String, Bool, true, false, List, [], ◌∷◌, ◌++◌, ◌==◌,
  string_eq, contains, ok, err, key_error, Bool-cases, some,
}
use orxtra.Prelude.Dict.{Dict, get, has, put, get-put}
use orxtra.Prelude.Dict.Unique.{Unique, has-put}
use orxtra.Prelude.Sets.{to_set, contains-to_set}
use orxtra.Scheduler.Graph.{Graph, build_graph, set_deps, from_keys}
use orxtra.Scheduler.Graph.Build.{Declared, build_graph-IsGraph, has-from_keys}
use orxtra.Scheduler.Graph.Missing.{topological_sort_missing}
use orxtra.Scheduler.Graph.Total.{topological_sort_total}
use orxtra.Scheduler.Validator.{
  WorkflowConfig, Problem, names_of, reference_problems, with_sort, dependency_cycle,
  validate_tasks, validate_dependencies, validate_variable_collisions, validate_task_tree,
}

set_deps_keeps :
    (dependencies : Dict String (List String)) (g : Graph) (x : String)
    → has dependencies x ≡ false
    → get (set_deps dependencies g) x ≡ get g x
unfolding set_deps has
set_deps_keeps [] g x h = refl
set_deps_keeps ((k, deps) ∷ rest) g x h = elim (Bool-cases (k == x)) [
  | inl same ↦ absurd (cc (rw (has, same) at h))
  | inr differ ↦
      set_deps_keeps rest (put g k (to_set deps)) x (rw (has, differ) at h)
      ∙ get-put g k x (to_set deps)
      ∙ rw differ refl
]

get-set_deps :
    (dependencies : Dict String (List String)) (g : Graph) (x : String) (deps : List String)
    → Unique dependencies
    → get dependencies x ≡ some deps
    → get (set_deps dependencies g) x ≡ some (to_set deps)
unfolding set_deps get
get-set_deps [] g x deps u h = cc
get-set_deps ((k, v) ∷ rest) g x deps u h = elim (Bool-cases (k == x)) [
  | inl same ↦
      let here : some v ≡ some deps = rw (get, same) at h in
      let equal : v ≡ deps = cc in
      set_deps_keeps rest (put g k (to_set v)) x
        (subst (λ y. has rest y ≡ false) ((string_eq.beq_iff k x).0 same) u.0)
      ∙ get-put g k x (to_set v)
      ∙ rw same (ap (λ y. some (to_set y)) equal)
  | inr differ ↦ get-set_deps rest (put g k (to_set v)) x deps u.1 (rw (get, differ) at h)
]

has-set_deps :
    (dependencies : Dict String (List String)) (g : Graph) (x : String)
    → has dependencies x ≡ false
    → has g x ≡ false
    → has (set_deps dependencies g) x ≡ false
unfolding set_deps has
has-set_deps [] g x h k = k
has-set_deps ((i, deps) ∷ rest) g x h k = elim (Bool-cases (i == x)) [
  | inl same ↦ absurd (cc (rw (has, same) at h))
  | inr differ ↦
      has-set_deps rest (put g i (to_set deps)) x (rw (has, differ) at h)
        (has-put g i x (to_set deps) ∙ rw differ k)
]

-- If a dependency, in a dict of dependencies with different sources, names a target that is neither a
-- task nor the source of a dependency, `validate_task_tree` raises a KeyError.
pub validate_task_tree_unknown :
    (config : WorkflowConfig) (headless : Bool) (source target : String) (deps : List String)
    → Unique config.dependencies
    → get config.dependencies source ≡ some deps
    → contains deps target ≡ true
    → contains (names_of config.tasks) target ≡ false
    → has config.dependencies target ≡ false
    → validate_task_tree config headless ≡ err key_error
unfolding validate_task_tree validate_dependencies with_sort build_graph
validate_task_tree_unknown config headless source target deps u found on no_task no_source =
    let names = names_of config.tasks in
    let nodes = from_keys [] names [] in
    let no_node : has nodes target ≡ false =
      has-from_keys [] names [] target ∙ rw no_task (unfold has in refl) in
    rw
      (topological_sort_missing (build_graph names config.dependencies) source target (to_set deps)
        (get-set_deps config.dependencies nodes source deps u found)
        (contains-to_set deps target ∙ on)
        (has-set_deps config.dependencies nodes target no_source no_node))
      refl

returns :
    (config : WorkflowConfig) (headless : Bool) (problems : List Problem)
    → validate_dependencies config ≡ ok problems
    → (all : List Problem) × (validate_task_tree config headless ≡ ok all)
unfolding validate_task_tree
returns config headless problems h = (
  validate_tasks headless config.tasks [] ++ problems ++ validate_variable_collisions config.tasks,
  rw h refl,
)

-- If the dependencies name tasks only, `validate_task_tree` returns its list of errors.
pub validate_task_tree_total :
    (config : WorkflowConfig) (headless : Bool)
    → Declared (names_of config.tasks) config.dependencies
    → (problems : List Problem) × (validate_task_tree config headless ≡ ok problems)
unfolding validate_dependencies with_sort
validate_task_tree_total config headless declared =
    let names = names_of config.tasks in
    let references = reference_problems names config.dependencies in
    let (graph, _) = build_graph-IsGraph names config.dependencies declared in
    elim (topological_sort_total (build_graph names config.dependencies) graph) [
      | inl found ↦ returns config headless references (ap (with_sort references) found.1)
      | inr found ↦
          returns config headless (references ++ dependency_cycle found.0 ∷ [])
            (ap (with_sort references) found.1)
    ]
