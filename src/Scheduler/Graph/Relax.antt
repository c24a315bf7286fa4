-- ===== src/Scheduler/Graph/Relax.antt =====
-- Lemmas on the inner loop of `topological_sort`, over the dependents of an emitted node
-- (scheduler/src/orxtra/scheduler/_graph.py).
use mathlib.Core.Option
use mathlib.Core.List.{append-nil, append_assoc}
use orxtra.Prelude.{
  ℕ, ◌+◌, ◌≡◌, refl, sym, ap, subst, ◌∙◌, String, Bool, true, false, not, Option, none, some, List,
  [], ◌∷◌, ◌++◌, ◌==◌, string_eq, arith, filter, contains, count, if◌then◌else◌, ok, Bool-cases,
  inl, inr,
}
use orxtra.Prelude.Dict.{Dict, get, put, get-put, get-eq_has}
use orxtra.Prelude.Dict.Unique.{Unique}
use orxtra.Prelude.Sets.{Distinct, contains-append}
use orxtra.Scheduler.Graph.{Graph, ℤ, minus_one, is_zero, relax}
use orxtra.Scheduler.Graph.Fill.{dependents}

-- The dependent's degree falls to 0.
abbrev pub hits : Dict String ℤ → String → Bool
hits deg x = elim (get deg x) [ none ↦ false | some d ↦ is_zero (minus_one d) ]

abbrev pub HasDegree : Dict String ℤ → List String → Type 0
HasDegree deg [] = Unit
HasDegree deg (x ∷ xs) = ((d : ℤ) × (get deg x ≡ some d)) × HasDegree deg xs

module _ (deg : Dict String ℤ) (x : String) (v : ℤ) where
  HasDegree-put : (xs : List String) → HasDegree deg xs → HasDegree (put deg x v) xs
  HasDegree-put [] h = tt
  HasDegree-put (y ∷ ys) h = (
    elim (Bool-cases (x == y)) [
      | inl same ↦ (v, get-put deg x y v ∙ rw same)
      | inr differ ↦ (h.0.0, get-put deg x y v ∙ rw differ h.0.1)
    ],
    HasDegree-put ys h.1,
  )

  filter-hits :
      (xs : List String)
      → contains xs x ≡ false
      → filter (hits (put deg x v)) xs ≡ filter (hits deg) xs
  filter-hits [] h = refl
  filter-hits (y ∷ ys) h =
      ground
        (arith, string_eq.beq_iff x y, string_eq.beq_iff y x, get-put deg x y v, filter-hits ys)

-- The degree of a dependent goes down by one.
abbrev pub lowered : Bool → Option ℤ → Option ℤ
lowered hit o = if hit then Option.map minus_one o else o

queue_step :
    (queue rest : List String) (x : String) (hit : Bool)
    → (if hit then queue ++ x ∷ [] else queue) ++ rest ≡ queue ++ (if hit then x ∷ rest else rest)
queue_step queue rest x true = append_assoc queue (x ∷ []) rest
queue_step queue rest x false = refl

lowered_step :
    (deg : Dict String ℤ) (x y : String) (xs : List String) (d : ℤ)
    → get deg x ≡ some d
    → contains xs x ≡ false
    → lowered (contains xs y) (get (put deg x (minus_one d)) y)
      ≡ lowered (contains (x ∷ xs) y) (get deg y)
lowered_step deg x y xs d found absent = elim (Bool-cases (x == y)) [
  | inl same ↦
      let e = (string_eq.beq_iff x y).0 same in
      let gone : contains xs y ≡ false = subst (λ z. contains xs z ≡ false) e absent in
      let here : get deg y ≡ some d = subst (λ z. get deg z ≡ some d) e found in
      rw (get-put deg x y (minus_one d)) (rw (same, gone, here))
  | inr differ ↦ rw (get-put deg x y (minus_one d)) (rw differ)
]

pub relax_lem :
    (xs : List String) (deg : Dict String ℤ) (queue : List String)
    → Distinct xs
    → HasDegree deg xs
    → (deg' : Dict String ℤ) × (relax xs deg queue ≡ ok (deg', queue ++ filter (hits deg) xs))
      × ((y : String) → get deg' y ≡ lowered (contains xs y) (get deg y))
unfolding relax
relax_lem [] deg queue u h = (deg, rw append-nil, λ y. refl)
relax_lem (x ∷ xs) deg queue u ((d, found), h) =
    let next = if is_zero (minus_one d) then queue ++ x ∷ [] else queue in
    let rest = filter (hits deg) xs in
    let hit : hits deg x ≡ is_zero (minus_one d) = rw (found, hits) in
    let (deg', run, degrees) =
      relax_lem xs (put deg x (minus_one d)) next u.1 (HasDegree-put deg x (minus_one d) xs h) in
    (
      deg',
      rw (found, relax)
          (run
            ∙ ap (λ q. ok (deg', q))
                (ap (λ r. next ++ r) (filter-hits deg x (minus_one d) xs u.0)
                  ∙ queue_step queue rest x (is_zero (minus_one d))
                  ∙ ap (λ b. queue ++ (if b then x ∷ rest else rest)) (sym hit))),
      λ y. degrees y ∙ lowered_step deg x y xs d found u.0,
    )

-- The dependencies that are still to come.
abbrev pub missing : List String → List String → ℕ
missing seen deps = count (λ d. not (contains seen d)) deps

pub missing_snoc :
    (seen deps : List String) (n : String)
    → Distinct deps
    → contains seen n ≡ false
    → missing seen deps ≡ missing (seen ++ n ∷ []) deps + (if contains deps n then 1 else 0)
missing_snoc seen [] n u h = refl
missing_snoc seen (d ∷ deps) n u h = ground (
  arith,
  string_eq.beq_iff d n,
  string_eq.beq_iff n d,
  contains-append seen (n ∷ []) d,
  missing_snoc seen deps n,
)

abbrev pub depends : Option (List String) → String → Bool
depends none n = false
depends (some deps) n = contains deps n

pub contains-dependents :
    (g : Graph) (n y : String) → Unique g → contains (dependents n g) y ≡ depends (get g y) n
unfolding dependents get
contains-dependents [] n y u = refl
contains-dependents ((node, deps) ∷ rest) n y u =
    ground (arith, string_eq.beq_iff node y, get-eq_has rest node, contains-dependents rest n y)

pub dependents-Distinct : (g : Graph) (n : String) → Unique g → Distinct (dependents n g)
unfolding dependents
dependents-Distinct [] n u = tt
dependents-Distinct ((node, deps) ∷ rest) n u =
    ground
      (arith, get-eq_has rest node, contains-dependents rest n node, dependents-Distinct rest n)
