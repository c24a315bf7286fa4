-- ===== src/Scheduler/Graph/Missing.antt =====
-- Proofs on `topological_sort` with a dependency on an unknown task
-- (scheduler/src/orxtra/scheduler/_graph.py).
use orxtra.Prelude.{
  ◌≡◌, refl, sym, subst, ◌∙◌, String, true, false, some, List, [], ◌∷◌, ◌++◌, ◌==◌, string_eq,
  arith, contains, Result, ok, err, key_error, Bool-cases, Option-cases, inl, inr, >>=-eq-ok,
  length,
}
use orxtra.Prelude.Dict.{Dict, get, has, put, keys, has-eq_get, has-eq_not_none}
use orxtra.Scheduler.Graph.{
  Graph, ℤ, pos, link, fill, from_keys, run_sort, missing_key, topological_sort,
}
use orxtra.Scheduler.Graph.Fill.{Known, Known-same, has_known, get-from_keys}
use orxtra.Scheduler.Graph.Start.{contains-keys}
use orxtra.Scheduler.Graph.Order.{Known-has}

-- `link` succeeds only if every dependency has an entry.
link_ok :
    (node : String) (deps : List String) (adj adj' : Graph)
    → link node deps adj ≡ ok adj'
    → Known adj deps × ((n : String) → has adj' n ≡ has adj n)
unfolding link
link_ok node [] adj adj' h =
    let e : adj ≡ adj' = ground arith in (tt, λ n. subst (λ a. has a n ≡ has adj n) e refl)
link_ok node (dep ∷ deps) adj adj' h = elim (Option-cases (get adj dep)) [
  | inl absent ↦ let wrong : err key_error ≡ ok adj' = rw (absent, link) at h in absurd (cc wrong)
  | inr (nodes, found) ↦
      let run : link node deps (put adj dep (nodes ++ node ∷ [])) ≡ ok adj' =
        rw (found, link) at h in
      let here = has-eq_get adj dep nodes found in
      let same = λ (n : String). has_known adj dep n (nodes ++ node ∷ []) here in
      let (known, after) = link_ok node deps (put adj dep (nodes ++ node ∷ [])) adj' run in
      (
        (here, Known-same (put adj dep (nodes ++ node ∷ [])) adj deps (λ n. sym (same n)) known),
        λ n. after n ∙ same n,
      )
]

fill_ok :
    (g : Graph) (deg : Dict String ℤ) (adj : Graph) (r : Dict String ℤ × Graph)
    → fill g deg adj ≡ ok r
    → (x : String) (deps : List String) → get g x ≡ some deps
    → Known adj deps
unfolding fill get
fill_ok [] deg adj r h x deps e = cc
fill_ok ((node, ds) ∷ rest) deg adj r h x deps e =
    let (adj₁, linked, filled) =
      >>=-eq-ok (link node ds adj) (fill rest (put deg node (pos (length ds)))) h in
    let (known, same) = link_ok node ds adj adj₁ linked in
    elim (Bool-cases (node == x)) [
      | inl here ↦ let q : ds ≡ deps = cc in subst (Known adj) q known
      | inr other ↦
          Known-same adj₁ adj deps (λ n. sym (same n))
            (fill_ok rest (put deg node (pos (length ds))) adj₁ r filled x deps (rw other at e))
    ]

has-from_nodes :
    (g : Graph) (n : String) → has {V = List String} (from_keys [] (keys g) []) n ≡ has g n
has-from_nodes g n =
    has-eq_not_none {V = List String} (from_keys [] (keys g) []) n
    ∙ rw (get-from_keys {V = List String} [] (keys g) [] n) (
        rw (contains-keys g n) (
          unfold get in
          elim (Bool-cases (has g n)) [ inl found ↦ rw found | inr absent ↦ rw absent ]))

sort_missing :
    (g : Graph) (r : Result (Dict String ℤ × Graph))
    → ((a : Dict String ℤ × Graph) → r ≡ ok a → ⊥)
    → run_sort g r ≡ missing_key
unfolding run_sort
sort_missing g (ok a) h = absurd (h a refl)
sort_missing g (err e) h = refl

-- If some task of the graph depends on a name that is no task, the sort ends in a KeyError, whatever
-- else the graph holds.
pub topological_sort_missing :
    (g : Graph) (x d : String) (deps : List String)
    → get g x ≡ some deps
    → contains deps d ≡ true
    → has g d ≡ false
    → topological_sort g ≡ missing_key
unfolding topological_sort
topological_sort_missing [] x d deps e on unknown = unfold get in cc
topological_sort_missing (entry ∷ rest) x d deps e on unknown =
    let g = entry ∷ rest in
    let adj = from_keys [] (keys g) [] in
    let deg = from_keys (pos 0) (keys g) [] in
    sort_missing g (fill g deg adj) λ a filled.
      let known = fill_ok g deg adj a filled x deps e in
      let there : has g d ≡ true = sym (has-from_nodes g d) ∙ Known-has adj deps d known on in cc
