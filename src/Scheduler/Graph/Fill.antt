-- ===== src/Scheduler/Graph/Fill.antt =====
-- Lemmas on the first loop of `topological_sort`: in-degrees and reversed edges
-- (scheduler/src/orxtra/scheduler/_graph.py).

use mathlib.Core.List.{append-nil, append_assoc}
use orxtra.Prelude.{
  ◌≡◌, refl, sym, ap, subst, ◌∙◌, String, true, false, Option, none, some, List, [], ◌∷◌, ◌++◌,
  ◌==◌, string_eq, arith, length, contains, if◌then◌else◌, ok, Bool-cases, inl, inr,
}
use orxtra.Prelude.Dict.{Dict, get, has, put, get-put, get-eq_has}
use orxtra.Prelude.Dict.Unique.{Unique, has-put}
use orxtra.Prelude.Sets.{Distinct}
use orxtra.Scheduler.Graph.{Graph, ℤ, pos, from_keys, link, fill}

-- The nodes that depend on a node, in the graph's order.
unfoldable pub dependents : String → Graph → List String
dependents n [] = []
dependents n ((node, deps) ∷ rest) =
    if contains deps n then node ∷ dependents n rest else dependents n rest

pub get-from_keys {ℓ} :
    {V : Type ℓ} (v : V) (xs : List String) (d : Dict String V) (x : String)
    → get (from_keys v xs d) x ≡ (if contains xs x then some v else get d x)
unfolding from_keys
get-from_keys v [] d x = refl
get-from_keys v (y ∷ xs) d x = ground (arith, get-from_keys v xs (put d y v) x, get-put d y x v)

-- Every dependency has an entry.
abbrev pub Known : Graph → List String → Type 0
Known adj [] = Unit
Known adj (dep ∷ deps) = (has adj dep ≡ true) × Known adj deps

Known-put :
    (adj : Graph) (deps : List String) (k : String) (v : List String)
    → Known adj deps
    → Known (put adj k v) deps
Known-put adj [] k v h = tt
Known-put adj (dep ∷ deps) k v h = ground (arith, has-put adj k dep v, Known-put adj deps k v h.1)

pub get_known :
    (adj : Graph) (k : String) → has adj k ≡ true → (v : List String) × (get adj k ≡ some v)
unfolding has get
get_known [] k h = cc
get_known ((j, v) ∷ adj) k h = elim (Bool-cases (j == k)) [
  | inl same ↦ (v, rw same)
  | inr differ ↦ let (w, e) = get_known adj k (rw differ at h) in (w, rw differ e)
]

-- A list added at the end of an entry.
abbrev pub extend : Option (List String) → List String → Option (List String)
extend none more = none
extend (some nodes) more = some (nodes ++ more)

abbrev edge : String → List String → String → List String
edge node deps n = if contains deps n then node ∷ [] else []

extend_nil : (o : Option (List String)) → extend o [] ≡ o
extend_nil none = refl
extend_nil (some nodes) = ap some (append-nil nodes)

extend-extend :
    (o : Option (List String)) (xs ys : List String) → extend (extend o xs) ys ≡ extend o (xs ++ ys)
extend-extend none xs ys = refl
extend-extend (some nodes) xs ys = ap some (append_assoc nodes xs ys)

edge_step :
    (adj : Graph) (node dep n : String) (deps nodes : List String)
    → get adj dep ≡ some nodes
    → contains deps dep ≡ false
    → extend (get (put adj dep (nodes ++ node ∷ [])) n) (edge node deps n)
      ≡ extend (get adj n) (edge node (dep ∷ deps) n)
edge_step adj node dep n deps nodes found absent = elim (Bool-cases (dep == n)) [
  | inl same ↦
      let e = (string_eq.beq_iff dep n).0 same in
      let gone : contains deps n ≡ false = subst (λ x. contains deps x ≡ false) e absent in
      let here : get adj n ≡ some nodes = subst (λ x. get adj x ≡ some nodes) e found in
      rw (get-put adj dep n (nodes ++ node ∷ []))
        (rw (same, here, gone) (ap some (append-nil (nodes ++ node ∷ []))))
  | inr differ ↦ rw (get-put adj dep n (nodes ++ node ∷ [])) (rw differ)
]

pub has_known :
    (adj : Graph) (k n : String) (v : List String)
    → has adj k ≡ true
    → has (put adj k v) n ≡ has adj n
has_known adj k n v h = ground (arith, has-put adj k n v, string_eq.beq_iff k n)

pub link_lem :
    (node : String) (deps : List String) (adj : Graph)
    → Distinct deps
    → Known adj deps
    → (adj' : Graph) × (link node deps adj ≡ ok adj')
      × ((n : String) → get adj' n ≡ extend (get adj n) (edge node deps n))
      × ((n : String) → has adj' n ≡ has adj n)
unfolding link
link_lem node [] adj d k = (adj, refl, λ n. sym (extend_nil (get adj n)), λ n. refl)
link_lem node (dep ∷ deps) adj d k =
    let (nodes, found) = get_known adj dep k.0 in
    let (adj', linked, edges, same) =
      link_lem node deps (put adj dep (nodes ++ node ∷ [])) d.1
        (Known-put adj deps dep (nodes ++ node ∷ []) k.1) in
    (
      adj',
      rw (found, link) linked,
      λ n. edges n ∙ edge_step adj node dep n deps nodes found d.0,
      λ n. same n ∙ has_known adj dep n (nodes ++ node ∷ []) k.0,
    )

-- The dependencies of each node are a set of known nodes.
abbrev pub Closed : Graph → Graph → Type 0
Closed adj [] = Unit
Closed adj ((node, deps) ∷ rest) = Distinct deps × Known adj deps × Closed adj rest

pub Known-same :
    (adj adj' : Graph) (deps : List String)
    → ((n : String) → has adj' n ≡ has adj n)
    → Known adj deps
    → Known adj' deps
Known-same adj adj' [] same k = tt
Known-same adj adj' (dep ∷ deps) same k = (same dep ∙ k.0, Known-same adj adj' deps same k.1)

pub Closed-same :
    (adj adj' : Graph) (g : Graph)
    → ((n : String) → has adj' n ≡ has adj n)
    → Closed adj g
    → Closed adj' g
Closed-same adj adj' [] same c = tt
Closed-same adj adj' ((node, deps) ∷ rest) same c =
    (c.0, Known-same adj adj' deps same c.1, Closed-same adj adj' rest same c.2)

abbrev pub degree : Option (List String) → Option ℤ → Option ℤ
degree none old = old
degree (some deps) old = some (pos (length deps))

degree_step :
    (g : Graph) (deg : Dict String ℤ) (node x : String) (deps : List String)
    → has g node ≡ false
    → degree (get g x) (get (put deg node (pos (length deps))) x)
      ≡ degree (get ((node, deps) ∷ g) x) (get deg x)
unfolding get
degree_step g deg node x deps h = elim (Bool-cases (node == x)) [
  | inl same ↦
      let e = (string_eq.beq_iff node x).0 same in
      let gone : get g x ≡ none = subst (λ y. get g y ≡ none) e (get-eq_has g node h) in
      rw (get-put deg node x (pos (length deps))) (rw (same, gone))
  | inr differ ↦ rw (get-put deg node x (pos (length deps))) (rw differ)
]

dependents_step :
    (node n : String) (deps : List String) (g : Graph)
    → edge node deps n ++ dependents n g ≡ dependents n ((node, deps) ∷ g)
unfolding dependents
dependents_step node n deps g = ground arith

-- The loop raises nothing, and leaves the sizes of the sets and the reversed edges.
pub fill_lem :
    (g : Graph) (deg : Dict String ℤ) (adj : Graph)
    → Unique g
    → Closed adj g
    → (deg' : Dict String ℤ) × (adj' : Graph) × (fill g deg adj ≡ ok (deg', adj'))
      × ((n : String) → get adj' n ≡ extend (get adj n) (dependents n g))
      × ((x : String) → get deg' x ≡ degree (get g x) (get deg x))
unfolding fill dependents get
fill_lem [] deg adj u c = (deg, adj, refl, λ n. sym (extend_nil (get adj n)), λ x. refl)
fill_lem ((node, deps) ∷ rest) deg adj u c =
    let (adj₁, linked, edges, same) = link_lem node deps adj c.0 c.1 in
    let (deg', adj', filled, all_edges, degrees) =
      fill_lem rest (put deg node (pos (length deps))) adj₁ u.1
        (Closed-same adj adj₁ rest same c.2) in
    (
      deg',
      adj',
      rw (linked, fill) filled,
      λ n.
          all_edges n
          ∙ ap (λ o. extend o (dependents n rest)) (edges n)
          ∙ extend-extend (get adj n) (edge node deps n) (dependents n rest)
          ∙ ap (extend (get adj n)) (dependents_step node n deps rest),
      λ x. degrees x ∙ degree_step rest deg node x deps u.0,
    )
