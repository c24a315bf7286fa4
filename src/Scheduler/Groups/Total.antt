-- ===== src/Scheduler/Groups/Total.antt =====
-- Proofs on `find_parallel_groups` at an order that `topological_sort` returns
-- (scheduler/src/orxtra/scheduler/_graph.py).
use Prim.Native.Nat.{max}
use orxtra.Prelude.{
  ℕ, ◌+◌, ◌≡◌, refl, sym, subst, ◌∙◌, String, true, Option, none, some, List, [], ◌∷◌, ◌++◌, ◌==◌,
  string_eq, contains, ok, arith, Bool-cases, inl, inr, if◌then◌else◌,
}
use orxtra.Prelude.Dict.{Dict, get, put, get-put, values}
use orxtra.Prelude.Sets.{contains-append}
use orxtra.Scheduler.Graph.{Graph, topological_sort, order}
use orxtra.Scheduler.Graph.Relax.{missing}
use orxtra.Scheduler.Graph.Kahn.{Ordered}
use orxtra.Scheduler.Graph.Start.{IsGraph}
use orxtra.Scheduler.Graph.Order.{topological_sort_order}
use orxtra.Scheduler.Groups.{max_depth, assign_depths, groups_from, deepest, find_parallel_groups}

none_missing :
    (seen deps : List String) (d : String)
    → missing seen deps ≡ 0
    → contains deps d ≡ true
    → contains seen d ≡ true
none_missing seen [] d h on = cc
none_missing seen (x ∷ deps) d h on = elim (Bool-cases (x == d)) [
  | inl same ↦ subst (λ y. contains seen y ≡ true) ((string_eq.beq_iff x d).0 same) (ground arith)
  | inr differ ↦ none_missing seen deps d (ground arith) (rw differ at on)
]

-- The tasks of a list that all have a depth.
abbrev HaveDepth : Dict String ℕ → List String → Type 0
HaveDepth depth xs = (d : String) → contains xs d ≡ true → (w : ℕ) × (get depth d ≡ some w)

max_depth_total :
    (depth : Dict String ℕ) (deps : List String) (best : ℕ)
    → HaveDepth depth deps
    → (m : ℕ) × (max_depth depth deps best ≡ ok m)
unfolding max_depth
max_depth_total depth [] best h = (best, refl)
max_depth_total depth (dep ∷ deps) best h =
    let (w, known) = h dep (ground (arith, string_eq.beq_iff dep dep)) in
    let (m, rest) = max_depth_total depth deps (max best w) (λ d on. h d (ground arith)) in
    (m, rw (max_depth, known) rest)

put-HaveDepth :
    (depth : Dict String ℕ) (seen : List String) (node : String) (v : ℕ)
    → HaveDepth depth seen
    → HaveDepth (put depth node v) (seen ++ node ∷ [])
put-HaveDepth depth seen node v h d on = elim (Bool-cases (node == d)) [
  | inl same ↦ (v, get-put depth node d v ∙ rw same refl)
  | inr differ ↦
      let before : contains seen d ≡ true = ground (arith, contains-append seen (node ∷ []) d) in
      let (w, known) = h d before in
      let kept : (if node == d then some v else get depth d) ≡ some w = rw differ known in
      (w, get-put depth node d v ∙ kept)
]

-- One node of the loop, whose dependencies have a depth.
assign_one :
    (g : Graph) (node : String) (rest : List String) (depth : Dict String ℕ)
    (found : Option (List String))
    → get g node ≡ found
    → ((deps : List String) → found ≡ some deps → HaveDepth depth deps)
    → (v : ℕ) × (assign_depths g rest (put depth node v) ≡ assign_depths g (node ∷ rest) depth)
unfolding assign_depths
assign_one g node rest depth none e h = (0, rw (assign_depths, e) refl)
assign_one g node rest depth (some []) e h = (0, rw (assign_depths, e) refl)
assign_one g node rest depth (some (dep ∷ deps)) e h =
    let (m, deepest_dep) = max_depth_total depth (dep ∷ deps) 0 (h (dep ∷ deps) refl) in
    (m + 1, rw (assign_depths, e) (rw deepest_dep refl))

assign_depths_total :
    (g : Graph) (seen xs : List String) (depth : Dict String ℕ)
    → Ordered g seen xs
    → HaveDepth depth seen
    → (depth' : Dict String ℕ) × (assign_depths g xs depth ≡ ok depth')
unfolding assign_depths
assign_depths_total g seen [] depth o h = (depth, refl)
assign_depths_total g seen (node ∷ rest) depth o h =
    let (v, same) =
      assign_one g node rest depth (get g node) refl
        (λ deps found d on. h d (none_missing seen deps d (o.0 deps found) on)) in
    let (depth', assigned) =
      assign_depths_total g (seen ++ node ∷ []) rest (put depth node v) o.1
        (put-HaveDepth depth seen node v h) in
    (depth', sym same ∙ assigned)

made :
    (g : Graph) (xs : List String) (depth : Dict String ℕ)
    → assign_depths g xs [] ≡ ok depth
    → (groups : List (List String)) × (find_parallel_groups g xs ≡ ok groups)
unfolding find_parallel_groups
made g [] depth h = ([], refl)
made g (node ∷ rest) depth h = (groups_from depth (deepest (values depth) + 1) 0, rw h refl)

-- At the order that `topological_sort` returns for a graph whose dependencies are tasks,
-- `find_parallel_groups` returns groups and raises no KeyError.
pub find_parallel_groups_total :
    (g : Graph) (xs : List String)
    → IsGraph g
    → topological_sort g ≡ order xs
    → (groups : List (List String)) × (find_parallel_groups g xs ≡ ok groups)
find_parallel_groups_total g xs v h =
    let (_, _, behind) = topological_sort_order g xs v h in
    let (depth, assigned) = assign_depths_total g [] xs [] behind (λ d on. cc) in
    made g xs depth assigned
