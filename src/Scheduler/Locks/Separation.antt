-- ===== src/Scheduler/Locks/Separation.antt =====
-- Proofs on `FileLockRegistry` (scheduler/src/orxtra/scheduler/_locks.py).
use orxtra.Prelude.{
  ◌≡◌, refl, sym, ◌∙◌, String, Bool, true, false, ◌||◌, none, some, List, [], ◌∷◌, ◌==◌, string_eq,
  nat_eq, any, contains, if◌then◌else◌, Bool-cases, Option-cases, inl, inr, arith, subst, ◌⊎◌,
}
use orxtra.Prelude.Ids.{Uuid}
use orxtra.Prelude.Dict.{get, put, pop, get-put, get-pop}
use orxtra.Prelude.Sets.{to_set}
use orxtra.Scheduler.Locks.{Claims, paths_overlap, overlaps, check_conflict, claim, release}

any-contains :
    (p : String → Bool) (xs : List String) (x : String)
    → contains xs x ≡ true
    → p x ≡ true
    → any p xs ≡ true
any-contains p [] x h k = cc
any-contains p (y ∷ ys) x h k = elim (Bool-cases (y == x)) [
  | inl same ↦ ground (arith, (string_eq.beq_iff y x).0 same)
  | inr differ ↦ ground (arith, any-contains p ys x)
]

any-to_set : (p : String → Bool) (xs : List String) → any p (to_set xs) ≡ any p xs
unfolding to_set
any-to_set p [] = refl
any-to_set p (x ∷ xs) = ground (arith, any-contains p (to_set xs) x, any-to_set p xs)

paths_overlap_comm : (a b : String) → paths_overlap a b ≡ paths_overlap b a
unfolding paths_overlap
paths_overlap_comm a b = ground (arith, string_eq.beq_iff a b, string_eq.beq_iff b a)

overlaps-nil : (ps : List String) → overlaps ps [] ≡ false
overlaps-nil [] = refl
overlaps-nil (p ∷ ps) = overlaps-nil ps

overlaps-cons :
    (ps : List String) (q : String) (qs : List String)
    → overlaps ps (q ∷ qs) ≡ (any (λ p. paths_overlap q p) ps || overlaps ps qs)
overlaps-cons [] q qs = refl
overlaps-cons (p ∷ ps) q qs = ground (arith, overlaps-cons ps q qs, paths_overlap_comm p q)

overlaps_comm : (ps qs : List String) → overlaps ps qs ≡ overlaps qs ps
overlaps_comm ps [] = overlaps-nil ps
overlaps_comm ps (q ∷ qs) = overlaps-cons ps q qs ∙ ground (arith, overlaps_comm ps qs)

no_conflict :
    (paths : List String) (claims : Claims) (j : Uuid) (claimed : List String)
    → check_conflict paths claims ≡ none
    → get claims j ≡ some claimed
    → overlaps paths claimed ≡ false
unfolding check_conflict get
no_conflict paths [] j claimed h found = cc
no_conflict paths ((i, c) ∷ claims) j claimed h found = elim (Bool-cases (overlaps paths c)) [
  | inl overlap ↦ ground arith
  | inr clear ↦ elim (Bool-cases (i == j)) [
    | inl here ↦ subst (λ x. overlaps paths x ≡ false) (ground arith) clear
    | inr there ↦ no_conflict paths claims j claimed (ground arith) (ground arith)
  ]
]

-- The claims of two workflows overlap nowhere.
abbrev pub Separate : Claims → Type 0
Separate claims =
    (i j : Uuid) (ps qs : List String)
    → (i == j) ≡ false
    → get claims i ≡ some ps
    → get claims j ≡ some qs
    → overlaps ps qs ≡ false

-- Where a claim is found after a new one was written.
abbrev Found : Claims → Uuid → List String → Uuid → List String → Type 0
Found claims w held i ps =
    (((w == i) ≡ true) × (held ≡ ps)) ⊎ (((w == i) ≡ false) × (get claims i ≡ some ps))

find_claim :
    (claims : Claims) (w : Uuid) (held : List String) (i : Uuid) (ps : List String)
    → get (put claims w held) i ≡ some ps
    → Found claims w held i ps
find_claim claims w held i ps found =
    let looked : (if w == i then some held else get claims i) ≡ some ps =
      sym (get-put claims w i held) ∙ found in
    elim (Bool-cases (w == i)) [
      | inl here ↦ inl (here, ground arith)
      | inr there ↦ inr (there, ground arith)
    ]

new-apart :
    (claims : Claims) (paths : List String) (j : Uuid) (held qs : List String)
    → check_conflict paths claims ≡ none
    → to_set paths ≡ held
    → get claims j ≡ some qs
    → overlaps held qs ≡ false
new-apart claims paths j held qs clear same found =
    subst (λ x. overlaps x qs ≡ false) same
      (any-to_set (λ new_path. any (λ p. paths_overlap new_path p) qs) paths
        ∙ no_conflict paths claims j qs clear found)

put-Separate :
    (claims : Claims) (w : Uuid) (paths : List String)
    → check_conflict paths claims ≡ none
    → Separate claims
    → Separate (put claims w (to_set paths))
put-Separate claims w paths clear h i j ps qs differ found_i found_j =
    elim (find_claim claims w (to_set paths) i ps found_i) [
      | inl new_i ↦ elim (find_claim claims w (to_set paths) j qs found_j) [
        | inl new_j ↦ absurd (ground (arith, new_i.0, new_j.0, differ))
        | inr old_j ↦ new-apart claims paths j ps qs clear new_i.1 old_j.1
      ]
      | inr old_i ↦ elim (find_claim claims w (to_set paths) j qs found_j) [
        | inl new_j ↦ overlaps_comm ps qs ∙ new-apart claims paths i qs ps clear new_j.1 old_i.1
        | inr old_j ↦ h i j ps qs differ old_i.1 old_j.1
      ]
    ]

release-Separate : (claims : Claims) (w : Uuid) → Separate claims → Separate (release w claims)
unfolding release
release-Separate claims w h i j ps qs differ found_i found_j =
    h i j ps qs differ (kept i ps found_i) (kept j qs found_j)
  where
    kept : (k : Uuid) (rs : List String) → get (pop claims w) k ≡ some rs → get claims k ≡ some rs
    kept k rs found =
        let looked : (if w == k then none else get claims k) ≡ some rs =
          sym (get-pop claims w k) ∙ found in
        ground arith

claim-Separate :
    (claims : Claims) (w : Uuid) (paths : List String)
    → Separate claims
    → Separate (claim w paths claims).1
unfolding claim
claim-Separate claims w paths h = elim (Option-cases (check_conflict paths claims)) [
  | inl clear ↦ rw (claim, clear) (put-Separate claims w paths clear h)
  | inr conflict ↦ rw (claim, conflict.1) h
]

-- The calls of the registry.
pub data Call : Type 0 where
  claiming : (workflow_id : Uuid) (paths : List String) → Call
  releasing : (workflow_id : Uuid) → Call

abbrev pub run_calls : List Call → Claims → Claims
run_calls [] claims = claims
run_calls (Call.claiming w paths ∷ calls) claims = run_calls calls (claim w paths claims).1
run_calls (Call.releasing w ∷ calls) claims = run_calls calls (release w claims)

run_calls-keeps :
    (calls : List Call) (claims : Claims) → Separate claims → Separate (run_calls calls claims)
run_calls-keeps [] claims h = h
run_calls-keeps (Call.claiming w paths ∷ calls) claims h =
    run_calls-keeps calls (claim w paths claims).1 (claim-Separate claims w paths h)
run_calls-keeps (Call.releasing w ∷ calls) claims h =
    run_calls-keeps calls (release w claims) (release-Separate claims w h)

-- Whatever claims and releases are called on a new registry, the refused ones included, two different
-- workflows never hold paths of which one is the other or lies below it.
pub run_calls-Separate : (calls : List Call) → Separate (run_calls calls [])
unfolding get
run_calls-Separate calls = run_calls-keeps calls [] (λ i j ps qs differ found_i found_j. cc)
