-- ===== src/Scheduler/Graph/Build.antt =====
-- Proofs on `build_graph` (scheduler/src/orxtra/scheduler/_graph.py).
use orxtra.Prelude.{
  ◌≡◌, refl, sym, subst, ◌∙◌, String, true, List, [], ◌∷◌, ◌==◌, string_eq, arith, contains,
  Bool-cases, inl, inr, ◌||◌,
}
use orxtra.Prelude.Dict.{Dict, has, put}
use orxtra.Prelude.Dict.Unique.{Unique, has-put, put-Unique}
use orxtra.Prelude.Sets.{Distinct, to_set, to_set-Distinct, contains-to_set}
use orxtra.Scheduler.Graph.{Graph, from_keys, set_deps, build_graph}
use orxtra.Scheduler.Graph.Fill.{Known, Closed}
use orxtra.Scheduler.Graph.Start.{IsGraph, from_keys-Unique}

-- Every source and every target of the workflow's dependencies is a task.
abbrev pub Targets : List String → List String → Type 0
Targets tasks [] = Unit
Targets tasks (dep ∷ deps) = (contains tasks dep ≡ true) × Targets tasks deps

abbrev pub Declared : List String → Dict String (List String) → Type 0
Declared tasks [] = Unit
Declared tasks ((name, deps) ∷ rest) =
    (contains tasks name ≡ true) × Targets tasks deps × Declared tasks rest

pub has-from_keys :
    (v : List String) (xs : List String) (d : Graph) (x : String)
    → has (from_keys v xs d) x ≡ (contains xs x || has d x)
unfolding from_keys
has-from_keys v [] d x = refl
has-from_keys v (y ∷ ys) d x = ground (arith, has-from_keys v ys (put d y v) x, has-put d y x v)

has-from_tasks :
    (tasks : List String) (x : String)
    → has {V = List String} (from_keys [] tasks []) x ≡ contains tasks x
unfolding has
has-from_tasks tasks x = has-from_keys [] tasks [] x ∙ ground arith

Known-of :
    (adj : Graph) (deps : List String)
    → ((d : String) → contains deps d ≡ true → has adj d ≡ true)
    → Known adj deps
Known-of adj [] h = tt
Known-of adj (d ∷ deps) h =
    (h d (ground (arith, string_eq.beq_iff d d)), Known-of adj deps (λ x k. h x (ground arith)))

target :
    (tasks deps : List String) (d : String)
    → Targets tasks deps
    → contains deps d ≡ true
    → contains tasks d ≡ true
target tasks [] d t h = cc
target tasks (x ∷ deps) d t h = elim (Bool-cases (x == d)) [
  | inl same ↦ subst (λ y. contains tasks y ≡ true) ((string_eq.beq_iff x d).0 same) t.0
  | inr differ ↦ target tasks deps d t.1 (rw differ at h)
]

module _ (tasks : List String) where
  -- The entries are sets of tasks.
  abbrev Sets : Graph → Type 0
  Sets [] = Unit
  Sets ((node, deps) ∷ rest) =
      Distinct deps × ((d : String) → contains deps d ≡ true → contains tasks d ≡ true) × Sets rest

  Sets-put :
      (g : Graph) (k : String) (deps : List String)
      → Sets g
      → Distinct deps
      → ((d : String) → contains deps d ≡ true → contains tasks d ≡ true)
      → Sets (put g k deps)
  unfolding put
  Sets-put [] k deps s d t = (d, t, tt)
  Sets-put ((j, w) ∷ g) k deps s d t = elim (Bool-cases (j == k)) [
    | inl same ↦ rw same (d, t, s.2)
    | inr differ ↦ rw differ (s.0, s.1, Sets-put g k deps s.2 d t)
  ]

  Sets-from_keys : (xs : List String) (g : Graph) → Sets g → Sets (from_keys [] xs g)
  unfolding from_keys
  Sets-from_keys [] g s = s
  Sets-from_keys (x ∷ xs) g s = Sets-from_keys xs (put g x []) (Sets-put g x [] s tt (λ d h. cc))

  Closed-of :
      (adj g : Graph) → ((x : String) → has adj x ≡ contains tasks x) → Sets g → Closed adj g
  Closed-of adj [] nodes s = tt
  Closed-of adj ((node, deps) ∷ g) nodes s =
      (s.0, Known-of adj deps (λ d h. nodes d ∙ s.1 d h), Closed-of adj g nodes s.2)

  node_put :
      (g : Graph) (k x : String) (deps : List String)
      → has g x ≡ contains tasks x
      → contains tasks k ≡ true
      → has (put g k deps) x ≡ contains tasks x
  node_put g k x deps h t = ground (arith, has-put g k x deps, string_eq.beq_iff k x)

  set_deps-IsGraph :
      (dependencies : Dict String (List String)) (g : Graph)
      → Declared tasks dependencies
      → Unique g
      → ((x : String) → has g x ≡ contains tasks x)
      → Sets g
      → IsGraph (set_deps dependencies g)
        × ((x : String) → has (set_deps dependencies g) x ≡ contains tasks x)
  unfolding set_deps
  set_deps-IsGraph [] g t u nodes s = (record { unique = u; closed = Closed-of g g nodes s }, nodes)
  set_deps-IsGraph ((name, deps) ∷ rest) g t u nodes s =
      set_deps-IsGraph rest (put g name (to_set deps)) t.2 (put-Unique g name (to_set deps) u)
        (λ x. node_put g name x (to_set deps) (nodes x) t.0)
        (Sets-put g name (to_set deps) s (to_set-Distinct deps)
          (λ d h. target tasks deps d t.1 (sym (contains-to_set deps d) ∙ h)))

-- If every source and target of the dependencies is a task, `build_graph` gives a graph whose nodes
-- are exactly the tasks, on which the theorems about the sort hold.
pub build_graph-IsGraph :
    (tasks : List String) (dependencies : Dict String (List String))
    → Declared tasks dependencies
    → IsGraph (build_graph tasks dependencies)
      × ((x : String) → has (build_graph tasks dependencies) x ≡ contains tasks x)
unfolding build_graph
build_graph-IsGraph tasks dependencies t =
    set_deps-IsGraph tasks dependencies (from_keys [] tasks []) t (from_keys-Unique [] tasks [] tt)
      (has-from_tasks tasks) (Sets-from_keys tasks tasks [] tt)
