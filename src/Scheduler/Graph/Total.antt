-- ===== src/Scheduler/Graph/Total.antt =====
-- Proofs on the outcomes of `topological_sort` (scheduler/src/orxtra/scheduler/_graph.py).
use mathlib.Core.List.{append-nil}
use orxtra.Prelude.{
  ℕ, zero, suc, ◌≡◌, ◌≤◌, ◌<◌, ◌⊎◌, sym, ◌∙◌, String, true, not, some, List, [], ◌==◌, string_eq,
  arith, length, filter, contains, Bool-cases, inl, inr, nat_eq, nat_beq_iff,
}
use orxtra.Prelude.Dict.{Dict, get, has, keys}
use orxtra.Prelude.Sets.{Distinct-length-le}
use orxtra.Scheduler.Graph.{Graph, ℤ, order, cycle, find_cycle, topological_sort}
use orxtra.Scheduler.Graph.Fill.{get_known}
use orxtra.Scheduler.Graph.Kahn.{IsKahn}
use orxtra.Scheduler.Graph.Start.{IsGraph, contains-keys, length-keys, keys-Distinct, deps-Known}
use orxtra.Scheduler.Graph.Order.{ordered_end, ending, conclude_eq, all_seen, Known-has, emitted}

-- `rank` puts each dependency below the task that needs it, so the graph has no cycle.
abbrev pub IsRanked : (String → ℕ) → Graph → Type 0
IsRanked rank g =
    (x : String) (deps : List String) (d : String)
    → get g x ≡ some deps
    → contains deps d ≡ true
    → rank d < rank x

module _ (rank : String → ℕ) (g : Graph) (v : IsGraph g) (ranked : IsRanked rank g)
    (deg : Dict String ℤ) (result : List String) (k : IsKahn g deg [] result) where
  reached : (bound : ℕ) (x : String) → rank x < bound → has g x ≡ true → contains result x ≡ true
  reached zero x below h = absurd (omega arith)
  reached (suc bound) x below h =
      let (deps, e) = get_known g x h in
      rw append-nil at (
        k.complete x deps e (
          all_seen result deps λ d on.
            reached bound d (omega (arith, ranked x deps d e on))
              (Known-has g deps d (deps-Known g x deps v e) on)))

  complete_length : length result ≡ length g
  complete_length =
      let (d, sub) = ordered_end g deg result k in
      let up : length result ≤ length (keys g) = Distinct-length-le result (keys g) d sub in
      let down : length (keys g) ≤ length result =
        Distinct-length-le (keys g) result (keys-Distinct g v.unique)
          (λ x h. reached (suc (rank x)) x (omega arith) (sym (contains-keys g x) ∙ h)) in
      omega (arith, length-keys g)

-- The sort of a graph whose dependencies are tasks ends, without a KeyError, in an order or in a
-- CycleError.
pub topological_sort_total :
    (g : Graph)
    → IsGraph g
    → ((xs : List String) × (topological_sort g ≡ order xs))
      ⊎ ((c : List String) × (topological_sort g ≡ cycle c))
topological_sort_total g v = elim (ending g v) [
  | emitted deg result k e ↦ elim (Bool-cases (length result == length g)) [
    | inl full ↦ inl (result, e ∙ conclude_eq g result ∙ rw full)
    | inr short ↦ inr (
      find_cycle g (filter (λ x. not (contains result x)) (keys g)),
      e ∙ conclude_eq g result ∙ rw short,
    )
  ]
]

-- The sort of a graph whose dependencies are tasks, and which has no cycle, as some rank of the tasks
-- shows, ends in an order.
pub topological_sort_acyclic :
    (rank : String → ℕ) (g : Graph)
    → IsGraph g
    → IsRanked rank g
    → (xs : List String) × (topological_sort g ≡ order xs)
topological_sort_acyclic rank g v ranked = elim (ending g v) [
  | emitted deg result k e ↦
      let full : (length result == length g) ≡ true =
        (nat_beq_iff _ _).1 (complete_length rank g v ranked deg result k) in
      (result, e ∙ conclude_eq g result ∙ rw full)
]
