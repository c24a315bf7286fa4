-- ===== src/Scheduler/Graph.antt =====
-- scheduler/src/orxtra/scheduler/_graph.py. A graph gives each task the set of the tasks that it
-- depends on; a set is a list, and any order of its elements is a possible order of iteration.
-- A loop that the source runs until its queue is empty, or as deep as its call stack goes, takes fuel.
pub mod Fill
pub mod Relax
pub mod Kahn
pub mod Start
pub mod Order
pub mod Total
pub mod Missing
pub mod Build
use orxtra.Prelude.{
  ℕ, zero, suc, ◌+◌, String, Bool, true, false, not, Option, none, some, List, [], ◌∷◌, ◌++◌, map,
  ◌==◌, nat_eq, nat_beq, string_eq, length, filter, contains, if◌then◌else◌, Result, ok, err,
  key_error, ◌>>=◌,
}
use orxtra.Prelude.Dict.{Dict, get, put, keys}
use orxtra.Prelude.Sets.{to_set}

abbrev pub Graph : Type 0
Graph = Dict String (List String)

-- `dict.fromkeys(nodes, v)`, and the comprehension `{node: v for node in nodes}`.
unfoldable pub from_keys {ℓ} : {V : Type ℓ} → V → List String → Dict String V → Dict String V
from_keys v [] d = d
from_keys v (x ∷ xs) d = from_keys v xs (put d x v)

-- `graph[task_name] = set(deps)` for each item.
unfoldable pub set_deps : Dict String (List String) → Graph → Graph
set_deps [] graph = graph
set_deps ((task_name, deps) ∷ rest) graph = set_deps rest (put graph task_name (to_set deps))

-- The tasks enter by their names, the only part that the function reads.
unfoldable pub build_graph : List String → Dict String (List String) → Graph
unfolding from_keys set_deps
build_graph tasks dependencies = set_deps dependencies (from_keys [] tasks [])

-- An in-degree is a Python integer. `negsuc n` is -(n + 1).
pub data ℤ : Type 0 where
  pos : ℕ → ℤ
  negsuc : ℕ → ℤ

abbrev pub minus_one : ℤ → ℤ
minus_one (pos zero) = negsuc 0
minus_one (pos (suc n)) = pos n
minus_one (negsuc n) = negsuc (suc n)

abbrev pub is_zero : ℤ → Bool
is_zero (pos n) = nat_beq n 0
is_zero (negsuc n) = false

-- `for dep in deps: reverse_adj[dep].append(node)`
unfoldable pub link : String → List String → Graph → Result Graph
link node [] reverse_adj = ok reverse_adj
link node (dep ∷ deps) reverse_adj = elim (get reverse_adj dep) [
  | none ↦ err key_error
  | some nodes ↦ link node deps (put reverse_adj dep (nodes ++ node ∷ []))
]

-- The loop that fills `in_degree` and `reverse_adj`.
unfoldable pub fill : Graph → Dict String ℤ → Graph → Result (Dict String ℤ × Graph)
unfolding link
fill [] in_degree reverse_adj = ok (in_degree, reverse_adj)
fill ((node, deps) ∷ rest) in_degree reverse_adj =
    link node deps reverse_adj >>= fill rest (put in_degree node (pos (length deps)))

-- The nodes of degree 0, in order.
unfoldable pub roots : Dict String ℤ → List String
roots [] = []
roots ((node, degree) ∷ rest) = if is_zero degree then node ∷ roots rest else roots rest

-- `for dependent in reverse_adj[node]: …`: the degrees and the queue after it.
unfoldable pub relax :
    List String → Dict String ℤ → List String → Result (Dict String ℤ × List String)
relax [] in_degree queue = ok (in_degree, queue)
relax (dependent ∷ rest) in_degree queue = elim (get in_degree dependent) [
  | none ↦ err key_error
  | some degree ↦
      relax rest (put in_degree dependent (minus_one degree))
        (if is_zero (minus_one degree) then queue ++ dependent ∷ [] else queue)
]

-- What a sort can end with: an order, a cycle (`CycleError`), a `KeyError`, or no fuel.
pub data Sorted : Type 0 where
  order : List String → Sorted
  cycle : List String → Sorted
  missing_key : Sorted
  out_of_fuel : Sorted

abbrev pub both :
    Result (Dict String ℤ × List String) → (Dict String ℤ → List String → Sorted) → Sorted
both (ok (in_degree, queue)) f = f in_degree queue
both (err e) f = missing_key

-- `while queue`, up to the list `result`.
unfoldable pub drain : ℕ → Graph → Dict String ℤ → List String → List String → Sorted
unfolding relax
drain fuel reverse_adj in_degree [] result = order result
drain zero reverse_adj in_degree (node ∷ queue) result = out_of_fuel
drain (suc fuel) reverse_adj in_degree (node ∷ queue) result = elim (get reverse_adj node) [
  | none ↦ missing_key
  | some dependents ↦
      both (relax dependents in_degree queue)
        (λ in_degree' queue'. drain fuel reverse_adj in_degree' queue' (result ++ node ∷ []))
]

-- The state of `dfs`. `path_set` holds the elements of `path` and is read off it.
pub record Search : Type 0 where
  pub visited : List String
  pub path : List String
  pub found : Option (List String)

-- `path[path.index(node):]`
unfoldable pub from_index : String → List String → List String
from_index node [] = []
from_index node (x ∷ xs) = if x == node then x ∷ xs else from_index node xs

-- `path.pop()`
unfoldable pub drop_last : List String → List String
drop_last [] = []
drop_last (x ∷ []) = []
drop_last (x ∷ y ∷ xs) = x ∷ drop_last (y ∷ xs)

abbrev pub deps_of : Option (List String) → List String
deps_of none = []
deps_of (some deps) = deps

-- The loop of `dfs` over the dependencies, with `visit` for the recursive call. It stops at a cycle.
unfoldable pub dfs_deps : (String → Search → Search) → List String → List String → Search → Search
dfs_deps visit remaining [] st = st
dfs_deps visit remaining (dep ∷ deps) st =
    let st' = if contains remaining dep then visit dep st else st in
    elim st'.found [ some c ↦ st' | none ↦ dfs_deps visit remaining deps st' ]

unfoldable pub dfs : ℕ → Graph → List String → String → Search → Search
unfolding from_index drop_last dfs_deps
dfs zero graph remaining node st = st
dfs (suc fuel) graph remaining node st =
    if contains st.path node
    then record st { found = some (from_index node st.path ++ node ∷ []) }
    else if contains st.visited node
    then st
    else (let st' =
          dfs_deps (dfs fuel graph remaining) remaining (deps_of (get graph node))
            (record { visited = node ∷ st.visited; path = st.path ++ node ∷ []; found = none }) in
        elim st'.found [ some c ↦ st' | none ↦ record st' { path = drop_last st'.path } ])

-- `for node in remaining: …`
unfoldable pub first_cycle : ℕ → Graph → List String → List String → Search → List String
unfolding dfs
first_cycle fuel graph remaining [] st = remaining
first_cycle fuel graph remaining (node ∷ nodes) st =
    let st' = dfs fuel graph remaining node st in
    elim st'.found [ some c ↦ c | none ↦ first_cycle fuel graph remaining nodes st' ]

-- A path repeats no node, so one more than the number of nodes is fuel enough.
unfoldable pub find_cycle : Graph → List String → List String
unfolding first_cycle
find_cycle graph remaining =
    first_cycle (suc (suc (length remaining))) graph remaining remaining
      (record { visited = []; path = []; found = none })

-- The end of the sort: every node was emitted, or there is a cycle among the others.
unfoldable pub conclude : Graph → Sorted → Sorted
unfolding find_cycle
conclude graph (order result) =
    if length result == length graph
    then order result
    else cycle (find_cycle graph (filter (λ x. not (contains result x)) (keys graph)))
conclude graph other = other

unfoldable pub run_sort : Graph → Result (Dict String ℤ × Graph) → Sorted
unfolding drain roots conclude
run_sort graph (err e) = missing_key
run_sort graph (ok (in_degree, reverse_adj)) =
    conclude graph (drain (length graph) reverse_adj in_degree (roots in_degree) [])

unfoldable pub topological_sort : Graph → Sorted
unfolding run_sort fill from_keys
topological_sort [] = order []
topological_sort (entry ∷ rest) =
    let graph = entry ∷ rest in
    run_sort graph (fill graph (from_keys (pos 0) (keys graph) []) (from_keys [] (keys graph) []))
