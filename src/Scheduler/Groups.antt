-- ===== src/Scheduler/Groups.antt =====
-- `find_parallel_groups` (scheduler/src/orxtra/scheduler/_graph.py).
pub mod Depths
pub mod Layers
pub mod Total
use Prim.Native.Nat.{max}
use orxtra.Prelude.{
  ℕ, zero, suc, ◌+◌, String, none, some, List, [], ◌∷◌, map, ◌==◌, nat_eq, string_eq, filter,
  Result, ok, err, key_error, ◌>>=◌,
}
use orxtra.Prelude.Dict.{Dict, get, put, values}
use orxtra.Scheduler.Graph.{Graph, deps_of}

-- `max(depth[dep] for dep in deps)`, on a set that is not empty.
unfoldable pub max_depth : Dict String ℕ → List String → ℕ → Result ℕ
max_depth depth [] best = ok best
max_depth depth (dep ∷ deps) best = elim (get depth dep) [
  | none ↦ err key_error
  | some d ↦ max_depth depth deps (max best d)
]

-- The loop that gives each node its depth.
unfoldable pub assign_depths : Graph → List String → Dict String ℕ → Result (Dict String ℕ)
unfolding max_depth
assign_depths graph [] depth = ok depth
assign_depths graph (node ∷ rest) depth = elim (deps_of (get graph node)) [
  | [] ↦ assign_depths graph rest (put depth node 0)
  | dep ∷ deps ↦
      max_depth depth (dep ∷ deps) 0 >>= λ m. assign_depths graph rest (put depth node (m + 1))
]

-- `max(depth.values())`
abbrev pub deepest : List ℕ → ℕ
deepest [] = 0
deepest (d ∷ ds) = max d (deepest ds)

-- The nodes of each depth from `d` on, `left` of them.
unfoldable pub groups_from : Dict String ℕ → (left d : ℕ) → List (List String)
groups_from depth zero d = []
groups_from depth (suc left) d =
    map (λ e. e.0) (filter (λ (e : String × ℕ). e.1 == d) depth) ∷ groups_from depth left (d + 1)

unfoldable pub find_parallel_groups : Graph → (order : List String) → Result (List (List String))
unfolding assign_depths groups_from
find_parallel_groups graph [] = ok []
find_parallel_groups graph (node ∷ rest) = assign_depths graph (node ∷ rest) [] >>= λ depth.
    ok (groups_from depth (deepest (values depth) + 1) 0)
