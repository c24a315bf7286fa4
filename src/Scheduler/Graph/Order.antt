-- ===== src/Scheduler/Graph/Order.antt =====
-- Proofs on the order that `topological_sort` returns (scheduler/src/orxtra/scheduler/_graph.py).
use mathlib.Core.List.{append-nil}
use orxtra.Prelude.{
  ◌≡◌, refl, sym, ap, subst, ◌∙◌, String, true, not, none, some, List, [], ◌∷◌, ◌==◌, string_eq,
  arith, length, filter, contains, if◌then◌else◌, ok, Bool-cases, Bool-ext, inl, inr, nat_eq,
  nat_beq_iff,
}
use orxtra.Prelude.Dict.{Dict, get, has, keys, has-eq_get, has-eq_not_none}
use orxtra.Prelude.Dict.Unique.{Unique}
use orxtra.Prelude.Sets.{Distinct, Distinct-covers}
use orxtra.Scheduler.Graph.{
  Graph, ℤ, pos, fill, roots, from_keys, drain, order, cycle, conclude, find_cycle, run_sort,
  topological_sort,
}
use orxtra.Scheduler.Graph.Fill.{
  dependents, degree, get_known, fill_lem, Known, Closed-same, get-from_keys,
}
use orxtra.Scheduler.Graph.Relax.{missing}
use orxtra.Scheduler.Graph.Kahn.{IsKahn, Ordered}
use orxtra.Scheduler.Graph.Start.{
  IsGraph, contains-keys, length-keys, drain_lem, roots_lem, roots-Distinct, from_keys-Unique,
  fill-Unique, zero_length, missing_none,
}

module _ (g : Graph) (v : IsGraph g) where
  no_edges : Graph
  no_edges = from_keys [] (keys g) []

  zeros : Dict String ℤ
  zeros = from_keys (pos 0) (keys g) []

  get-no_edges : (n : String) → get no_edges n ≡ (if has g n then some [] else none)
  unfolding no_edges get
  get-no_edges n =
      get-from_keys [] (keys g) [] n ∙ ap (λ b. if b then some [] else none) (contains-keys g n)

  get-zeros : (n : String) → get zeros n ≡ (if has g n then some (pos 0) else none)
  unfolding zeros get
  get-zeros n =
      get-from_keys (pos 0) (keys g) [] n
      ∙ ap (λ b. if b then some (pos 0) else none) (contains-keys g n)

  has-no_edges : (n : String) → has no_edges n ≡ has g n
  has-no_edges n =
      has-eq_not_none no_edges n
      ∙ rw (get-no_edges n)
          (elim (Bool-cases (has g n)) [ inl found ↦ rw found | inr absent ↦ rw absent ])

  degree_known : (x : String) → degree (get g x) (get zeros x) ≡ degree (get g x) none
  degree_known x = elim (Bool-cases (has g x)) [
    | inr absent ↦ rw (get-zeros x) (rw absent)
    | inl found ↦ let (deps, e) = get_known g x found in rw e
  ]

  start_lem :
      (deg : Dict String ℤ) × (adj : Graph) × (fill g zeros no_edges ≡ ok (deg, adj))
      × ((n : String) → has g n ≡ true → get adj n ≡ some (dependents n g))
      × IsKahn g deg (roots deg) []
  start_lem =
      let (deg, adj, filled, edges, degrees) =
        fill_lem g zeros no_edges v.unique (Closed-same g no_edges g has-no_edges v.closed) in
      let u : Unique deg =
        fill-Unique g zeros deg no_edges adj filled
          (unfold zeros in from_keys-Unique (pos 0) (keys g) [] tt) in
      let first : (x : String) → get deg x ≡ degree (get g x) none =
        λ x. degrees x ∙ degree_known x in
      (
        deg,
        adj,
        filled,
        λ n h. edges n ∙ rw (get-no_edges n) (rw h),
        record {
          degrees = λ x deps e. first x ∙ rw e (ap (λ m. some (pos m)) (sym (missing_none deps)));
          distinct = roots-Distinct deg u;
          ready = λ x h. zero_length (get g x) (rw (first x) at (sym (roots_lem deg x u) ∙ h));
          complete = λ x deps e m.
              roots_lem deg x u ∙ rw (first x) (rw e (rw (sym (missing_none deps) ∙ m)));
          ordered = tt;
        },
      )

pub ordered_end :
    (g : Graph) (deg : Dict String ℤ) (result : List String)
    → IsKahn g deg [] result
    → Distinct result × ((x : String) → contains result x ≡ true → contains (keys g) x ≡ true)
ordered_end g deg result k = (
  rw append-nil at k.distinct,
  λ x h.
      let (deps, e, ready) = k.ready x (rw append-nil h) in
      contains-keys g x ∙ has-eq_get g x deps e,
)

-- How the sort ends on a graph.
pub data Ending (g : Graph) : Type 0 where
  emitted :
      (deg : Dict String ℤ) (result : List String)
      → IsKahn g deg [] result
      → topological_sort g ≡ conclude g (order result)
      → Ending g

sort_eq :
    (entry : String × List String) (rest : Graph) (v : IsGraph (entry ∷ rest))
    → topological_sort (entry ∷ rest)
      ≡ run_sort
          (entry ∷ rest)
          (fill (entry ∷ rest) (zeros (entry ∷ rest) v) (no_edges (entry ∷ rest) v))
unfolding topological_sort zeros no_edges
sort_eq entry rest v = refl

run_eq :
    (g : Graph) (deg : Dict String ℤ) (adj : Graph) (result : List String)
    → drain (length g) adj deg (roots deg) [] ≡ order result
    → run_sort g (ok (deg, adj)) ≡ conclude g (order result)
unfolding run_sort
run_eq g deg adj result h = ap (conclude g) h

empty_eq : topological_sort [] ≡ conclude [] (order [])
unfolding topological_sort
empty_eq = refl

pub ending : (g : Graph) → IsGraph g → Ending g
unfolding get
ending [] v =
    emitted [] []
      (record {
        degrees = λ x deps e. cc;
        distinct = tt;
        ready = λ x h. cc;
        complete = λ x deps e m. cc;
        ordered = tt;
      })
      empty_eq
ending (entry ∷ rest) v =
    let g = entry ∷ rest in
    let (deg, adj, filled, reversed, k) = start_lem g v in
    let (result, drained, deg', last) =
      drain_lem g v adj reversed (length g) deg (roots deg) [] k (omega arith) in
    emitted deg' result last
      (sort_eq entry rest v ∙ ap (run_sort g) filled ∙ run_eq g deg adj result drained)

-- The test that follows the loop.
pub conclude_eq :
    (g : Graph) (result : List String)
    → conclude g (order result) ≡ (
        if length result == length g
        then order result
        else cycle (find_cycle g (filter (λ x. not (contains result x)) (keys g))))
unfolding conclude
conclude_eq g result = refl

same_order : (xs ys : List String) → order xs ≡ order ys → xs ≡ ys
same_order xs ys h = cc

-- If the sort returns an order, that order holds every task exactly once, and every task stands in
-- it behind all of its dependencies.
pub topological_sort_order :
    (g : Graph) (xs : List String)
    → IsGraph g
    → topological_sort g ≡ order xs
    → Distinct xs × ((x : String) → contains xs x ≡ has g x) × Ordered g [] xs
topological_sort_order g xs v h = elim (ending g v) [
  | emitted deg result k e ↦ elim (Bool-cases (length result == length g)) [
    | inr short ↦ absurd (no_order (rw short at (sym (conclude_eq g result) ∙ sym e ∙ h)))
    | inl full ↦
        let same : result ≡ xs =
          same_order result xs (rw full at (sym (conclude_eq g result) ∙ sym e ∙ h)) in
        subst (λ ys. Distinct ys × ((x : String) → contains ys x ≡ has g x) × Ordered g [] ys) same
          (all_emitted deg result k full)
  ]
]
  where
    no_order : {c : List String} → cycle c ≡ order xs → ⊥
    no_order q = cc

    all_emitted :
        (deg : Dict String ℤ) (result : List String)
        → IsKahn g deg [] result
        → (length result == length g) ≡ true
        → Distinct result × ((x : String) → contains result x ≡ has g x) × Ordered g [] result
    all_emitted deg result k full =
        let (d, sub) = ordered_end g deg result k in
        (
          d,
          λ x.
              Bool-ext (contains result x) (has g x) (λ h. sym (contains-keys g x) ∙ sub x h)
                (λ h.
                  Distinct-covers result (keys g) x d sub
                    (omega (arith, (nat_beq_iff _ _).0 full, length-keys g))
                    (contains-keys g x ∙ h)),
          k.ordered,
        )

pub all_seen :
    (seen deps : List String)
    → ((d : String) → contains deps d ≡ true → contains seen d ≡ true)
    → missing seen deps ≡ 0
all_seen seen [] h = refl
all_seen seen (d ∷ deps) h =
    ground (arith, h d, string_eq.beq_iff d d, all_seen seen deps (λ x k. h x (ground arith)))

pub Known-has :
    (g : Graph) (deps : List String) (d : String)
    → Known g deps
    → contains deps d ≡ true
    → has g d ≡ true
Known-has g [] d k h = cc
Known-has g (x ∷ deps) d k h = elim (Bool-cases (x == d)) [
  | inl same ↦ subst (λ y. has g y ≡ true) ((string_eq.beq_iff x d).0 same) k.0
  | inr differ ↦ Known-has g deps d k.1 (rw differ at h)
]
