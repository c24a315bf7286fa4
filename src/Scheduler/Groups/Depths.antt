-- ===== src/Scheduler/Groups/Depths.antt =====
-- Lemmas on the depths in `find_parallel_groups` (scheduler/src/orxtra/scheduler/_graph.py).
use Prim.Native.Nat.{max}
use orxtra.Prelude.{
  ℕ, ◌+◌, ◌≤◌, ◌<◌, ◌≡◌, refl, sym, subst, ◌∙◌, String, true, false, Option, none, some, List, [],
  ◌∷◌, ◌==◌, nat_eq, string_eq, contains, All, ok, arith, Bool-cases, Option-cases, inl, inr,
  if◌then◌else◌, >>=-eq-ok, ◌>>=◌,
}
use orxtra.Prelude.Dict.{Dict, get, put, get-put}
use orxtra.Prelude.Dict.Unique.{Unique, put-Unique}
use orxtra.Prelude.Sets.{Distinct}
use orxtra.Scheduler.Graph.{Graph, deps_of}
use orxtra.Scheduler.Groups.{max_depth, assign_depths}

-- A task has a depth, and it is at most `m`.
abbrev Within : Dict String ℕ → ℕ → String → Type 0
Within depth m d = (v : ℕ) × (get depth d ≡ some v) × (v ≤ m)

max_depth-Within :
    (depth : Dict String ℕ) (deps : List String) (best m : ℕ)
    → max_depth depth deps best ≡ ok m
    → (best ≤ m) × ((d : String) → contains deps d ≡ true → Within depth m d)
unfolding max_depth
max_depth-Within depth [] best m h = (ground arith, λ d on. cc)
max_depth-Within depth (dep ∷ deps) best m h = elim (Option-cases (get depth dep)) [
  | inl none_yet ↦ absurd (cc (rw (max_depth, none_yet) at h))
  | inr known ↦
      let rest = max_depth-Within depth deps (max best known.0) m (rw (max_depth, known.1) at h) in
      (
        omega (arith, rest.0),
        λ d on. elim (Bool-cases (dep == d)) [
          | inl same ↦ (
            known.0,
            subst (λ x. get depth x ≡ some known.0) ((string_eq.beq_iff dep d).0 same) known.1,
            omega (arith, rest.0),
          )
          | inr differ ↦ rest.1 d (rw differ at on)
        ],
      )
]

-- Every task that has a depth lies deeper than its dependencies.
abbrev pub Layered : Graph → Dict String ℕ → Type 0
Layered g depth =
    (x : String) (v : ℕ) (deps : List String) (d : String)
    → get depth x ≡ some v
    → get g x ≡ some deps
    → contains deps d ≡ true
    → (w : ℕ) × (get depth d ≡ some w) × (w < v)

-- A new depth hides no old one.
put_keeps :
    (depth : Dict String ℕ) (node d : String) (v w : ℕ)
    → get depth node ≡ none
    → get depth d ≡ some w
    → get (put depth node v) d ≡ some w
put_keeps depth node d v w fresh known =
    rw (get-put depth node d v) (elim (Bool-cases (node == d)) [
      | inl same ↦ absurd (cc (fresh, known, (string_eq.beq_iff node d).0 same))
      | inr differ ↦ rw differ known
    ])

put-Layered :
    (g : Graph) (depth : Dict String ℕ) (node : String) (v : ℕ)
    → get depth node ≡ none
    → ((deps : List String) (d : String)
        → get g node ≡ some deps
        → contains deps d ≡ true
        → (w : ℕ) × (get depth d ≡ some w) × (w < v))
    → Layered g depth
    → Layered g (put depth node v)
put-Layered g depth node v fresh below h x u deps d found in_g on =
    let found' : (if node == x then some v else get depth x) ≡ some u =
      sym (get-put depth node x v) ∙ found in
    elim (Bool-cases (node == x)) [
      | inl same ↦
          let at_node : get g node ≡ some deps =
            subst (λ y. get g y ≡ some deps) (sym ((string_eq.beq_iff node x).0 same)) in_g in
          let dep = below deps d at_node on in
          let here : some v ≡ some u = rw same at found' in
          let equal : v ≡ u = cc in
          (dep.0, put_keeps depth node d v dep.0 fresh dep.1, subst (λ y. dep.0 < y) equal dep.2)
      | inr differ ↦
          let dep = h x u deps d (rw differ at found') in_g on in
          (dep.0, put_keeps depth node d v dep.0 fresh dep.1, dep.2)
    ]

-- None of the tasks has a depth.
unfoldable pub Fresh : Dict String ℕ → List String → Type 0
Fresh depth = All (λ x. get depth x ≡ none)

put-Fresh :
    (depth : Dict String ℕ) (node : String) (v : ℕ) (xs : List String)
    → contains xs node ≡ false
    → Fresh depth xs
    → Fresh (put depth node v) xs
unfolding Fresh
put-Fresh depth node v [] out f = tt
put-Fresh depth node v (x ∷ xs) out f = elim (Bool-cases (node == x)) [
  | inl same ↦ absurd (ground (arith, (string_eq.beq_iff node x).0 same, string_eq.beq_iff x node))
  | inr differ ↦
      (rw (get-put depth node x v) (rw differ f.0), put-Fresh depth node v xs (ground arith) f.1)
]

-- One node of the loop.
assign_node :
    (g : Graph) (node : String) (rest : List String) (depth depth' : Dict String ℕ)
    → assign_depths g (node ∷ rest) depth ≡ ok depth'
    → (v : ℕ) × (assign_depths g rest (put depth node v) ≡ ok depth')
      × ((deps : List String) (d : String)
          → get g node ≡ some deps
          → contains deps d ≡ true
          → (w : ℕ) × (get depth d ≡ some w) × (w < v))
unfolding assign_depths
assign_node g node rest depth depth' h = by_deps (get g node) refl h
  where
    by_deps :
        (found : Option (List String))
        → get g node ≡ found
        → elim (deps_of found) [
          | [] ↦ assign_depths g rest (put depth node 0)
          | dep ∷ deps ↦
              max_depth depth (dep ∷ deps) 0 >>= λ m. assign_depths g rest (put depth node (m + 1))
        ]
          ≡ ok depth'
        → (v : ℕ) × (assign_depths g rest (put depth node v) ≡ ok depth')
          × ((deps : List String) (d : String)
              → found ≡ some deps
              → contains deps d ≡ true
              → (w : ℕ) × (get depth d ≡ some w) × (w < v))
    by_deps none e q = (0, q, λ deps d is_found on. absurd (cc is_found))
    by_deps (some []) e q =
        (0, q, λ deps d is_found on. let nothing : contains [] d ≡ true = cc in absurd (cc nothing))
    by_deps (some (dep ∷ deps)) e q =
        let (m, deepest_dep, next) =
          >>=-eq-ok (max_depth depth (dep ∷ deps) 0)
            (λ m. assign_depths g rest (put depth node (m + 1))) q in
        let within = max_depth-Within depth (dep ∷ deps) 0 m deepest_dep in
        (
          m + 1,
          next,
          λ deps' d is_found on.
              let listed : contains (dep ∷ deps) d ≡ true = cc in
              let (w, known, small) = within.1 d listed in (w, known, omega (arith, small)),
        )

pub assign_depths-Layered :
    (g : Graph) (order : List String) (depth depth' : Dict String ℕ)
    → Distinct order
    → Fresh depth order
    → Unique depth
    → Layered g depth
    → assign_depths g order depth ≡ ok depth'
    → Layered g depth' × Unique depth'
unfolding assign_depths Fresh
assign_depths-Layered g [] depth depth' distinct fresh u layered h =
    let same : depth ≡ depth' = cc in (subst (Layered g) same layered, subst (λ d. Unique d) same u)
assign_depths-Layered g (node ∷ rest) depth depth' distinct fresh u layered h =
    let (v, next, below) = assign_node g node rest depth depth' h in
    assign_depths-Layered g rest (put depth node v) depth' distinct.1
      (put-Fresh depth node v rest distinct.0 fresh.1) (put-Unique depth node v u)
      (put-Layered g depth node v fresh.0 below layered) next
