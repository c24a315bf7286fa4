-- ===== src/Scheduler/Graph/Kahn.antt =====
-- The invariant of the main loop of `topological_sort` (scheduler/src/orxtra/scheduler/_graph.py).

use mathlib.Core.List.{append-nil, append_assoc}
use orxtra.Prelude.{
  ℕ, zero, suc, ◌+◌, ◌≡◌, refl, sym, ap, ◌∙◌, String, Bool, true, false, Option, none, some, List,
  [], ◌∷◌, ◌++◌, string_eq, arith, filter, contains, if◌then◌else◌, ok, Bool-cases, inl, inr, ◌||◌,
}
use orxtra.Prelude.Dict.{Dict, get}
use orxtra.Prelude.Dict.Unique.{Unique}
use orxtra.Prelude.Sets.{
  Distinct, contains-append, contains-filter, filter-Distinct, append-Distinct, Distinct-apart,
}
use orxtra.Scheduler.Graph.{Graph, ℤ, pos, minus_one, is_zero, relax}
use orxtra.Scheduler.Graph.Fill.{dependents}
use orxtra.Scheduler.Graph.Relax.{
  hits, HasDegree, lowered, relax_lem, missing, missing_snoc, depends, contains-dependents,
  dependents-Distinct,
}

module _ (g : Graph) where
  -- Every node of the list stands behind its dependencies, those in `seen` counted as done.
  abbrev pub Ordered : List String → List String → Type 0
  Ordered seen [] = Unit
  Ordered seen (x ∷ xs) =
      ((deps : List String) → get g x ≡ some deps → missing seen deps ≡ 0)
      × Ordered (seen ++ x ∷ []) xs

  Ordered-snoc :
      (seen xs : List String) (n : String)
      → Ordered seen xs
      → ((deps : List String) → get g n ≡ some deps → missing (seen ++ xs) deps ≡ 0)
      → Ordered seen (xs ++ n ∷ [])
  Ordered-snoc seen [] n o h = (λ deps e. rw append-nil at (h deps e), tt)
  Ordered-snoc seen (x ∷ xs) n o h =
      (o.0, Ordered-snoc (seen ++ x ∷ []) xs n o.1 (λ deps e. rw append_assoc (h deps e)))

  -- `done` has been emitted and `queue` is ready.
  pub record IsKahn (deg : Dict String ℤ) (queue done : List String) : Type 0 where
    pub degrees :
        (x : String) (deps : List String)
        → get g x ≡ some deps
        → get deg x ≡ some (pos (missing done deps))
    pub distinct : Distinct (done ++ queue)
    pub ready :
        (x : String)
        → contains (done ++ queue) x ≡ true
        → (deps : List String) × (get g x ≡ some deps) × (missing done deps ≡ 0)
    pub complete :
        (x : String) (deps : List String)
        → get g x ≡ some deps
        → missing done deps ≡ 0
        → contains (done ++ queue) x ≡ true
    pub ordered : Ordered [] done

HasDegree-of :
    (deg : Dict String ℤ) (xs : List String)
    → ((y : String) → contains xs y ≡ true → (d : ℤ) × (get deg y ≡ some d))
    → HasDegree deg xs
HasDegree-of deg [] h = tt
HasDegree-of deg (x ∷ xs) h =
    (h x (ground (arith, string_eq.beq_iff x x)), HasDegree-of deg xs (λ y k. h y (ground arith)))

depends_inv :
    (o : Option (List String)) (n : String)
    → depends o n ≡ true
    → (deps : List String) × (o ≡ some deps) × (contains deps n ≡ true)
depends_inv none n h = cc
depends_inv (some deps) n h = (deps, refl, h)

lower_degree :
    (m m' : ℕ) (hit : Bool)
    → m ≡ m' + (if hit then 1 else 0)
    → lowered hit (some (pos m)) ≡ some (pos m')
lower_degree zero m' hit h = ground arith
lower_degree (suc m) m' hit h = ground arith

zero_degree : (m m' : ℕ) → m ≡ m' + 1 → is_zero (minus_one (pos m)) ≡ true → m' ≡ 0
zero_degree zero m' h z = absurd (omega arith)
zero_degree (suc m) m' h z = ground arith

degree_zero : (m m' : ℕ) → m ≡ m' + 1 → m' ≡ 0 → is_zero (minus_one (pos m)) ≡ true
degree_zero zero m' h z = absurd (omega arith)
degree_zero (suc m) m' h z = ground arith

module _ (g : Graph) (u : Unique g)
    (sets : (x : String) (deps : List String) → get g x ≡ some deps → Distinct deps)
    (deg : Dict String ℤ) (n : String) (queue done : List String)
    (v : IsKahn g deg (n ∷ queue) done) where
  not_done : contains done n ≡ false
  not_done = elim (Bool-cases (contains done n)) [
    | inr absent ↦ absent
    | inl found ↦
        let gone = Distinct-apart done (n ∷ queue) n v.distinct found in
        ground (arith, string_eq.beq_iff n n)
  ]

  ds : List String
  ds = dependents n g

  -- A dependent has a degree, and it counts one dependency more than is missing afterwards.
  dependent :
      (y : String)
      → contains ds y ≡ true
      → (deps : List String) × (get g y ≡ some deps)
        × (get deg y ≡ some (pos (missing done deps)))
        × (missing done deps ≡ missing (done ++ n ∷ []) deps + 1)
  unfolding ds
  dependent y h =
      let (deps, e, on) = depends_inv (get g y) n (sym (contains-dependents g n y u) ∙ h) in
      (deps, e, v.degrees y deps e, rw on at (missing_snoc done deps n (sets y deps e) not_done))

  new : List String
  unfolding ds
  new = filter (hits deg) ds

  ds_degrees : HasDegree deg ds
  ds_degrees =
      HasDegree-of deg ds
        λ y h. let (deps, e, d, more) = dependent y h in (pos (missing done deps), d)

  in_new : (y : String) → contains new y ≡ true → (contains ds y ≡ true) × (hits deg y ≡ true)
  unfolding new
  in_new y h = ground (arith, contains-filter (hits deg) ds y)

  new_ready :
      (y : String)
      → contains new y ≡ true
      → (deps : List String) × (get g y ≡ some deps)
        × (missing (done ++ n ∷ []) deps ≡ 0)
        × (missing done deps ≡ 1)
  new_ready y h =
      let (inside, hit) = in_new y h in
      let (deps, e, d, more) = dependent y inside in
      let z : is_zero (minus_one (pos (missing done deps))) ≡ true = rw (d, hits) at hit in
      let none_left = zero_degree _ _ more z in (deps, e, none_left, more ∙ rw none_left)

  -- What is new was not ready before.
  new_apart : (y : String) → contains (done ++ n ∷ queue) y ≡ true → contains new y ≡ false
  new_apart y h = elim (Bool-cases (contains new y)) [
    | inr absent ↦ absent
    | inl found ↦
        let (deps, e, none_left, one) = new_ready y found in
        let (deps', e', ready) = v.ready y h in
        let same : deps ≡ deps' = cc in absurd (omega (arith, ap (missing done) same))
  ]

  regroup : (more : List String) → (done ++ n ∷ []) ++ (queue ++ more) ≡ (done ++ n ∷ queue) ++ more
  regroup more =
      append_assoc done (n ∷ []) (queue ++ more) ∙ sym (append_assoc done (n ∷ queue) more)

  new_complete :
      (y : String) (deps : List String)
      → get g y ≡ some deps
      → missing (done ++ n ∷ []) deps ≡ 0
      → (contains (done ++ n ∷ queue) y || contains new y) ≡ true
  unfolding new ds
  new_complete y deps e h = elim (Bool-cases (contains deps n)) [
    | inr off ↦
        let m : missing done deps ≡ 0 =
          ground (arith, missing_snoc done deps n (sets y deps e) not_done) in
        rw (v.complete y deps e m)
    | inl on ↦
        let more : missing done deps ≡ missing (done ++ n ∷ []) deps + 1 =
          rw on at (missing_snoc done deps n (sets y deps e) not_done) in
        let hit : hits deg y ≡ true = rw (v.degrees y deps e, hits) (degree_zero _ _ more h) in
        let inside : contains ds y ≡ true = contains-dependents g n y u ∙ rw e on in
        ground (arith, contains-filter (hits deg) ds y)
  ]

  n_ready : (deps : List String) → get g n ≡ some deps → missing done deps ≡ 0
  n_ready deps e =
      let here : contains (done ++ n ∷ queue) n ≡ true =
        ground (arith, contains-append done (n ∷ queue) n, string_eq.beq_iff n n) in
      let (deps', e', ready) = v.ready n here in
      let same : deps ≡ deps' = cc in ap (missing done) same ∙ ready

  still_ready :
      (y : String)
      → (contains (done ++ n ∷ queue) y || contains new y) ≡ true
      → (deps : List String) × (get g y ≡ some deps) × (missing (done ++ n ∷ []) deps ≡ 0)
  still_ready y h = elim (Bool-cases (contains new y)) [
    | inl found ↦ let (deps, e, none_left, one) = new_ready y found in (deps, e, none_left)
    | inr absent ↦
        let old : contains (done ++ n ∷ queue) y ≡ true = ground arith in
        let (deps, e, ready) = v.ready y old in
        (deps, e, ground (arith, missing_snoc done deps n (sets y deps e) not_done))
  ]

  -- One round of the loop keeps the invariant.
  pub round-IsKahn :
      (deg' : Dict String ℤ) × (relax (dependents n g) deg queue
        ≡ ok (deg', queue ++ filter (hits deg) (dependents n g)))
      × IsKahn g deg' (queue ++ filter (hits deg) (dependents n g)) (done ++ n ∷ [])
  unfolding ds new
  round-IsKahn =
      let (deg', run, degrees) = relax_lem ds deg queue (dependents-Distinct g n u) ds_degrees in
      (
        deg',
        run,
        record {
          degrees = λ x deps e.
              degrees x
              ∙ rw (contains-dependents g n x u) (
                  rw (e, depends)
                    (rw (v.degrees x deps e)
                      (lower_degree _ _ _ (missing_snoc done deps n (sets x deps e) not_done))));
          distinct = rw (regroup new) (
              append-Distinct (done ++ n ∷ queue) new v.distinct
                (filter-Distinct (hits deg) ds (dependents-Distinct g n u)) new_apart);
          ready = λ x h.
              still_ready x
                (sym (contains-append (done ++ n ∷ queue) new x) ∙ (rw (regroup new) at h));
          complete = λ x deps e h.
              rw (regroup new)
                (contains-append (done ++ n ∷ queue) new x ∙ new_complete x deps e h);
          ordered = Ordered-snoc g [] done n v.ordered n_ready;
        },
      )
