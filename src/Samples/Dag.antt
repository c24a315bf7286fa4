-- ===== src/Samples/Dag.antt =====
-- Applications of the theorems on the dependency graph (scheduler/src/orxtra/scheduler/_graph.py).
use orxtra.Prelude.{
  ok, ◌<◌, ◌≡◌, ◌⊎◌, refl, ℕ, String, List, some, false, true, [], ◌∷◌, contains, string_eq, ◌==◌,
  if◌then◌else◌, arith, Bool-cases, inl, inr,
}
use orxtra.Prelude.Dict.{get, has, put}
use orxtra.Prelude.Sets.{Distinct}
use orxtra.Scheduler.Graph.{Graph, order, cycle, topological_sort}
use orxtra.Scheduler.Groups.{find_parallel_groups}
use orxtra.Scheduler.Groups.Layers.{group, find_parallel_groups_lem}
use orxtra.Scheduler.Groups.Total.{find_parallel_groups_total}
use orxtra.Scheduler.Graph.Kahn.{Ordered}
use orxtra.Scheduler.Graph.Start.{IsGraph}
use orxtra.Scheduler.Graph.Order.{topological_sort_order}
use orxtra.Scheduler.Graph.Total.{topological_sort_total, topological_sort_acyclic, IsRanked}

abbrev chain : Graph
chain = ("test", "build" ∷ []) ∷ ("build", []) ∷ []

chain-IsGraph : IsGraph chain
unfolding has
chain-IsGraph = record {
  unique = (refl, (refl, tt));
  closed = ((refl, tt), (refl, tt), (tt, tt, tt));
}

chain_order : topological_sort chain ≡ order ("build" ∷ "test" ∷ [])
unfolding topological_sort get put
chain_order = refl

topological_sort_order_example :
    Distinct {A = String} ("build" ∷ "test" ∷ [])
    × ((x : String) → contains ("build" ∷ "test" ∷ []) x ≡ has chain x)
    × Ordered chain [] ("build" ∷ "test" ∷ [])
topological_sort_order_example =
    topological_sort_order chain ("build" ∷ "test" ∷ []) chain-IsGraph chain_order

topological_sort_total_example :
    ((xs : List String) × (topological_sort chain ≡ order xs))
    ⊎ ((c : List String) × (topological_sort chain ≡ cycle c))
topological_sort_total_example = topological_sort_total chain chain-IsGraph

abbrev rank : String → ℕ
rank x = if "test" == x then 1 else 0

only_build :
    (deps : List String) (d : String)
    → some ("build" ∷ []) ≡ some deps
    → contains deps d ≡ true
    → "build" ≡ d
only_build deps d same on =
    let held : contains ("build" ∷ []) d ≡ true = cc in
    (string_eq.beq_iff "build" d).0 (ground arith)

no_deps :
    (deps : List String) (d : String) → some [] ≡ some deps → contains deps d ≡ true → false ≡ true
no_deps deps d same on = let held : contains [] d ≡ true = cc in held

chain-IsRanked : IsRanked rank chain
unfolding get
chain-IsRanked x deps d found on = elim (Bool-cases ("test" == x)) [
  | inl top ↦ rw top (rw⁻¹ (only_build deps d (rw top at found) on) (omega arith))
  | inr other ↦ elim (Bool-cases ("build" == x)) [
    | inl leaf ↦ absurd (cc (no_deps deps d (rw leaf at (rw other at found)) on))
    | inr unknown ↦ absurd (cc (rw unknown at (rw other at found)))
  ]
]

topological_sort_acyclic_example : (xs : List String) × (topological_sort chain ≡ order xs)
topological_sort_acyclic_example = topological_sort_acyclic rank chain chain-IsGraph chain-IsRanked

abbrev layers : List (List String)
layers = ("build" ∷ []) ∷ ("test" ∷ []) ∷ []

chain-layers : find_parallel_groups chain ("build" ∷ "test" ∷ []) ≡ ok layers
unfolding find_parallel_groups get put
chain-layers = refl

test_found : get chain "test" ≡ some ("build" ∷ [])
unfolding get
test_found = refl

find_parallel_groups_lem_example : (j : ℕ) × (j < 1) × (contains (group j layers) "build" ≡ true)
find_parallel_groups_lem_example =
    find_parallel_groups_lem chain ("build" ∷ "test" ∷ []) layers 1 "test" ("build" ∷ []) "build"
      (refl, (refl, tt)) chain-layers refl test_found refl

find_parallel_groups_total_example :
    (groups : List (List String)) × (find_parallel_groups chain ("build" ∷ "test" ∷ []) ≡ ok groups)
find_parallel_groups_total_example =
    find_parallel_groups_total chain ("build" ∷ "test" ∷ []) chain-IsGraph chain_order
