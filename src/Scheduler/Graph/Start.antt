-- ===== src/Scheduler/Graph/Start.antt =====
-- Lemmas on the main loop of `topological_sort` from its first queue to its end
-- (scheduler/src/orxtra/scheduler/_graph.py).

use orxtra.Prelude.{
  ℕ, zero, suc, ◌+◌, ◌≡◌, ◌≤◌, refl, ap, subst, ◌∙◌, String, true, false, Option, none, some, List,
  [], ◌∷◌, ◌++◌, ◌==◌, string_eq, arith, length, filter, contains, ok, Bool-cases, inl, inr,
  >>=-eq-ok, length-append,
}
use orxtra.Prelude.Dict.{Dict, get, has, put, keys, get-eq_has, has-eq_get}
use orxtra.Prelude.Dict.Unique.{Unique, put-Unique}
use orxtra.Prelude.Sets.{Distinct, contains-append, Distinct-length-le}
use orxtra.Scheduler.Graph.{
  Graph, ℤ, pos, is_zero, link, fill, roots, from_keys, drain, both, order,
}
use orxtra.Scheduler.Graph.Fill.{dependents, degree, Known, Closed}
use orxtra.Scheduler.Graph.Relax.{missing, hits}
use orxtra.Scheduler.Graph.Kahn.{IsKahn, round-IsKahn}

-- Every node once, with a set of nodes for its dependencies.
pub record IsGraph (g : Graph) : Type 0 where
  pub unique : Unique g
  pub closed : Closed g g

module _ {ℓ} {V : Type ℓ} where
  pub contains-keys : (d : Dict String V) (x : String) → contains (keys d) x ≡ has d x
  unfolding has
  contains-keys [] x = refl
  contains-keys ((k, v) ∷ d) x = ground (arith, contains-keys d x)

  pub length-keys : (d : Dict String V) → length (keys d) ≡ length d
  length-keys [] = refl
  length-keys ((k, v) ∷ d) = ap suc (length-keys d)

  pub keys-Distinct : (d : Dict String V) → Unique d → Distinct (keys d)
  keys-Distinct [] u = tt
  keys-Distinct ((k, v) ∷ d) u = (contains-keys d k ∙ u.0, keys-Distinct d u.1)

sets_of :
    (adj g : Graph) (x : String) (deps : List String)
    → Closed adj g
    → get g x ≡ some deps
    → Distinct deps × Known adj deps
unfolding get
sets_of adj [] x deps c h = cc
sets_of adj ((node, ds) ∷ rest) x deps c h = elim (Bool-cases (node == x)) [
  | inl same ↦ let e : ds ≡ deps = cc in (subst Distinct e c.0, subst (Known adj) e c.1)
  | inr differ ↦ sets_of adj rest x deps c.2 (rw differ at h)
]

pub deps-Distinct :
    (g : Graph) (x : String) (deps : List String) → IsGraph g → get g x ≡ some deps → Distinct deps
deps-Distinct g x deps v h = (sets_of g g x deps v.closed h).0

pub deps-Known :
    (g : Graph) (x : String) (deps : List String) → IsGraph g → get g x ≡ some deps → Known g deps
deps-Known g x deps v h = (sets_of g g x deps v.closed h).1

module _ (g : Graph) (v : IsGraph g) (adj : Graph)
    (reversed : (n : String) → has g n ≡ true → get adj n ≡ some (dependents n g)) where
  -- The nodes that were emitted or wait are nodes of the graph, each once.
  bounded :
      (deg : Dict String ℤ) (queue done : List String)
      → IsKahn g deg queue done
      → length done + length queue ≤ length g
  bounded deg queue done k =
      let fits : length (done ++ queue) ≤ length (keys g) =
        Distinct-length-le (done ++ queue) (keys g) k.distinct (λ x h.
          let (deps, e, ready) = k.ready x h in contains-keys g x ∙ has-eq_get g x deps e) in
      omega (arith, length-append done queue, length-keys g)

  -- With fuel for every node the loop empties its queue.
  pub drain_lem :
      (fuel : ℕ) (deg : Dict String ℤ) (queue done : List String)
      → IsKahn g deg queue done
      → length g ≤ fuel + length done
      → (result : List String) × (drain fuel adj deg queue done ≡ order result)
        × (deg' : Dict String ℤ) × IsKahn g deg' [] result
  unfolding drain
  drain_lem fuel deg [] done k f = (done, refl, deg, k)
  drain_lem zero deg (n ∷ queue) done k f = absurd (omega (arith, bounded deg (n ∷ queue) done k))
  drain_lem (suc fuel) deg (n ∷ queue) done k f =
      let here : contains (done ++ n ∷ queue) n ≡ true =
        ground (arith, contains-append done (n ∷ queue) n, string_eq.beq_iff n n) in
      let (deps, e, ready) = k.ready n here in
      let entry = reversed n (has-eq_get g n deps e) in
      let (deg', run, k') =
        round-IsKahn g v.unique (λ x ds h. deps-Distinct g x ds v h) deg n queue done k in
      let (result, drained, deg'', last) =
        drain_lem fuel deg' (queue ++ filter (hits deg) (dependents n g)) (done ++ n ∷ []) k'
          (omega (arith, length-append done (n ∷ []))) in
      (result, rw (entry, drain) (rw (run, both) drained), deg'', last)

-- The first queue.
pub roots_lem :
    (deg : Dict String ℤ) (x : String)
    → Unique deg
    → contains (roots deg) x ≡ (elim (get deg x) [ none ↦ false | some d ↦ is_zero d ])
unfolding roots get
roots_lem [] x u = refl
roots_lem ((node, d) ∷ rest) x u =
    ground (arith, string_eq.beq_iff node x, get-eq_has rest node, roots_lem rest x)

pub roots-Distinct : (deg : Dict String ℤ) → Unique deg → Distinct (roots deg)
unfolding roots
roots-Distinct [] u = tt
roots-Distinct ((node, d) ∷ rest) u =
    ground (arith, get-eq_has rest node, roots_lem rest node, roots-Distinct rest)

pub from_keys-Unique {ℓ} :
    {V : Type ℓ} (v : V) (xs : List String) (d : Dict String V)
    → Unique d
    → Unique (from_keys v xs d)
unfolding from_keys
from_keys-Unique v [] d u = u
from_keys-Unique v (x ∷ xs) d u = from_keys-Unique v xs (put d x v) (put-Unique d x v u)

pub fill-Unique :
    (g : Graph) (deg deg' : Dict String ℤ) (adj adj' : Graph)
    → fill g deg adj ≡ ok (deg', adj')
    → Unique deg
    → Unique deg'
unfolding fill
fill-Unique [] deg deg' adj adj' h u = let e : deg ≡ deg' = ground arith in subst Unique e u
fill-Unique ((node, deps) ∷ rest) deg deg' adj adj' h u =
    let (adj₁, linked, filled) =
      >>=-eq-ok (link node deps adj) (fill rest (put deg node (pos (length deps)))) h in
    fill-Unique rest (put deg node (pos (length deps))) deg' adj₁ adj' filled
      (put-Unique deg node (pos (length deps)) u)

pub missing_none : (deps : List String) → missing [] deps ≡ length deps
missing_none [] = refl
missing_none (d ∷ deps) = omega (arith, missing_none deps)

pub zero_length :
    (o : Option (List String))
    → (elim (degree o none) [ none ↦ false | some d ↦ is_zero d ]) ≡ true
    → (deps : List String) × (o ≡ some deps) × (missing [] deps ≡ 0)
zero_length none h = cc
zero_length (some deps) h = (deps, refl, missing_none deps ∙ ground arith)
