-- ===== src/Scheduler/Groups/Layers.antt =====
-- Proofs on the groups of `find_parallel_groups` (scheduler/src/orxtra/scheduler/_graph.py).
use orxtra.Prelude.{
  ℕ, zero, suc, ◌+◌, ◌≤◌, ◌<◌, ◌≡◌, refl, sym, ap, subst, ◌∙◌, ◌&&◌, ◌||◌, String, true, false,
  some, List, [], ◌∷◌, map, ◌==◌, nat_eq, nat_beq_iff, string_eq, filter, contains, ok, arith,
  Bool-cases, ltb, ltb→lt, inl, inr, >>=-eq-ok,
}
use orxtra.Prelude.Dict.{Dict, get, has, values}
use orxtra.Prelude.Dict.Unique.{Unique}
use orxtra.Prelude.Sets.{Distinct}
use orxtra.Scheduler.Graph.{Graph}
use orxtra.Scheduler.Groups.{assign_depths, groups_from, deepest, find_parallel_groups}
use orxtra.Scheduler.Groups.Depths.{Layered, Fresh, assign_depths-Layered}

-- `groups[i]`
abbrev pub group : ℕ → List (List String) → List String
group i [] = []
group zero (xs ∷ groups) = xs
group (suc i) (xs ∷ groups) = group i groups

abbrev at_depth : Dict String ℕ → ℕ → List String
at_depth depth i = map (λ (e : String × ℕ). e.0) (filter (λ (e : String × ℕ). e.1 == i) depth)

group-groups_from :
    (depth : Dict String ℕ) (left d i : ℕ)
    → i < left
    → group i (groups_from depth left d) ≡ at_depth depth (d + i)
unfolding groups_from
group-groups_from depth zero d i h = absurd (omega arith)
group-groups_from depth (suc left) d zero h = ap (at_depth depth) (omega arith)
group-groups_from depth (suc left) d (suc i) h =
    group-groups_from depth left (d + 1) i (omega arith) ∙ ap (at_depth depth) (omega arith)

group_of_depth :
    (depth : Dict String ℕ) (left i : ℕ)
    → i < left
    → group i (groups_from depth left 0) ≡ at_depth depth i
group_of_depth depth left i h =
    group-groups_from depth left 0 i h ∙ ap (at_depth depth) (omega arith)

group_beyond :
    (depth : Dict String ℕ) (left d i : ℕ) → left ≤ i → group i (groups_from depth left d) ≡ []
unfolding groups_from
group_beyond depth zero d i h = refl
group_beyond depth (suc left) d zero h = absurd (omega arith)
group_beyond depth (suc left) d (suc i) h = group_beyond depth left (d + 1) i (omega arith)

at_depth_cons :
    (k : String) (v : ℕ) (depth : Dict String ℕ) (x : String) (i : ℕ)
    → contains (at_depth ((k, v) ∷ depth) i) x
      ≡ (((v == i) && (k == x)) || contains (at_depth depth i) x)
at_depth_cons k v depth x i = elim (Bool-cases (v == i)) [
  | inl same ↦ rw same refl
  | inr differ ↦ rw differ refl
]

at_depth_has :
    (depth : Dict String ℕ) (x : String) (i : ℕ)
    → get depth x ≡ some i
    → contains (at_depth depth i) x ≡ true
unfolding get
at_depth_has [] x i h = cc
at_depth_has ((k, v) ∷ depth) x i h = elim (Bool-cases (k == x)) [
  | inl same ↦
      let here : some v ≡ some i = rw (get, same) at h in
      let equal : v ≡ i = cc in
      at_depth_cons k v depth x i ∙ rw same (rw ((nat_beq_iff v i).1 equal) refl)
  | inr differ ↦
      at_depth_cons k v depth x i
      ∙ rw (at_depth_has depth x i (rw (get, differ) at h)) (ground arith)
]

absent :
    (depth : Dict String ℕ) (x : String) (i : ℕ)
    → has depth x ≡ false
    → contains (at_depth depth i) x ≡ false
unfolding has
absent [] x i h = refl
absent ((k, v) ∷ depth) x i h = elim (Bool-cases (k == x)) [
  | inl same ↦ absurd (cc (rw (has, same) at h))
  | inr differ ↦
      at_depth_cons k v depth x i
      ∙ rw differ (rw (absent depth x i (rw (has, differ) at h)) (ground arith))
]

has_at_depth :
    (depth : Dict String ℕ) (x : String) (i : ℕ)
    → Unique depth
    → contains (at_depth depth i) x ≡ true
    → get depth x ≡ some i
unfolding get
has_at_depth [] x i u h = cc
has_at_depth ((k, v) ∷ depth) x i u h = elim (Bool-cases (k == x)) [
  | inl same ↦
      let nowhere : contains (at_depth depth i) x ≡ false =
        absent depth x i (subst (λ y. has depth y ≡ false) ((string_eq.beq_iff k x).0 same) u.0) in
      let first : (((v == i) && (k == x)) || contains (at_depth depth i) x) ≡ true =
        sym (at_depth_cons k v depth x i) ∙ h in
      rw same (ap some ((nat_beq_iff v i).0 (ground arith)))
  | inr differ ↦
      let later : (((v == i) && (k == x)) || contains (at_depth depth i) x) ≡ true =
        sym (at_depth_cons k v depth x i) ∙ h in
      rw differ (has_at_depth depth x i u.1 (ground arith))
]

module _ (g : Graph) (depth : Dict String ℕ) (layered : Layered g depth) (u : Unique depth) where
  earlier :
      (left i : ℕ) (x : String) (deps : List String) (d : String)
      → contains (group i (groups_from depth left 0)) x ≡ true
      → get g x ≡ some deps
      → contains deps d ≡ true
      → (j : ℕ) × (j < i) × (contains (group j (groups_from depth left 0)) d ≡ true)
  earlier left i x deps d held in_g on = elim (Bool-cases (ltb i left)) [
    | inr beyond ↦
        let nothing = group_beyond depth left 0 i (ground arith) in absurd (cc (rw nothing at held))
    | inl inside ↦
        let at_i : contains (at_depth depth i) x ≡ true =
          rw (group_of_depth depth left i (ltb→lt i left inside)) at held in
        let (w, known, below) = layered x i deps d (has_at_depth depth x i u at_i) in_g on in
        (
          w,
          below,
          rw (group_of_depth depth left w (omega (arith, below, ltb→lt i left inside)))
              (at_depth_has depth d w known),
        )
  ]

none_assigned : (xs : List String) → Fresh [] xs
unfolding Fresh get
none_assigned [] = tt
none_assigned (x ∷ xs) = (refl, none_assigned xs)

nothing_assigned : (g : Graph) → Layered g []
unfolding get
nothing_assigned g x v deps d found in_g on = cc

-- When `find_parallel_groups` returns groups for an order without repetition, every dependency of a
-- task of a group stands in an earlier group: the tasks of one group do not depend on each other.
pub find_parallel_groups_lem :
    (g : Graph) (order : List String) (groups : List (List String)) (i : ℕ) (x : String)
    (deps : List String) (d : String)
    → Distinct order
    → find_parallel_groups g order ≡ ok groups
    → contains (group i groups) x ≡ true
    → get g x ≡ some deps
    → contains deps d ≡ true
    → (j : ℕ) × (j < i) × (contains (group j groups) d ≡ true)
unfolding find_parallel_groups
find_parallel_groups_lem g [] groups i x deps d distinct h held in_g on =
    let no_groups : groups ≡ [] = cc in
    let none_listed : contains (group i []) x ≡ true =
      subst (λ gs. contains (group i gs) x ≡ true) no_groups held in
    absurd (cc none_listed)
find_parallel_groups_lem g (node ∷ rest) groups i x deps d distinct h held in_g on =
    let (depth, assigned, made) =
      >>=-eq-ok (assign_depths g (node ∷ rest) [])
        (λ depth. ok (groups_from depth (deepest (values depth) + 1) 0)) h in
    let left = deepest (values depth) + 1 in
    let same : groups_from depth left 0 ≡ groups = cc in
    let (layered, unique) =
      assign_depths-Layered g (node ∷ rest) [] depth distinct (none_assigned (node ∷ rest)) tt
        (nothing_assigned g) assigned in
    subst (λ gs. (j : ℕ) × (j < i) × (contains (group j gs) d ≡ true)) same
      (earlier g depth layered unique left i x deps d
        (subst (λ gs. contains (group i gs) x ≡ true) (sym same) held) in_g on)
