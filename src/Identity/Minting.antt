-- ===== src/Identity/Minting.antt =====
-- One principal for each actor (identity/src/orxtra/identity/_inmemory.py).

use orxtra.Prelude.{
  ◌≡◌, refl, sym, ◌∙◌, ap, subst, String, Bool, true, false, Option, none, some, List, [], ◌∷◌,
  ◌==◌, nat_eq, string_eq, find, All, Bool-cases, inl, inr, arith,
}
use orxtra.Prelude.Ids.{Uuid, Time}
use orxtra.Prelude.Dict.{get, put, pop, values, get-put, get-pop, All-get}
use orxtra.Identity.{
  Principal, Principals, is_ref, find_by_ref, mint_unless, mint_principal, rename_found,
  update_display_name, delete_principal, delete_all, sweep_orphaned_run_principals, orphans,
}

find-none :
    (p : Principal → Bool) (xs : List Principal) → find p xs ≡ none → All (λ x. p x ≡ false) xs
find-none p [] h = tt
find-none p (x ∷ xs) h = ground (arith, find-none p xs)

find-values-put :
    (p : Principal → Bool) (ps : Principals) (k : Uuid) (v : Principal)
    → All (λ x. p x ≡ false) (values ps)
    → p v ≡ true
    → find p (values (put ps k v)) ≡ some v
unfolding put
find-values-put p [] k v a h = rw h refl
find-values-put p ((i, w) ∷ ps) k v a h = ground (arith, find-values-put p ps k v a.1 h)

is_ref_self : (m : Principal) → is_ref m.kind m.external_ref m ≡ true
is_ref_self m =
    ground (arith, string_eq.beq_iff m.kind m.kind, nat_eq.beq_iff m.external_ref m.external_ref)

-- No two stored principals have the same kind and the same external reference.
abbrev pub IsOne : Principals → Type 0
IsOne ps =
    (i j : Uuid) (p q : Principal)
    → get ps i ≡ some p
    → get ps j ≡ some q
    → p.kind ≡ q.kind
    → p.external_ref ≡ q.external_ref
    → i ≡ j

absent :
    (m : Principal) (ps : Principals) (j : Uuid) (q : Principal)
    → find_by_ref m.kind m.external_ref ps ≡ none
    → get ps j ≡ some q
    → is_ref m.kind m.external_ref q ≡ false
unfolding find_by_ref
absent m ps j q h found =
    All-get (λ x. is_ref m.kind m.external_ref x ≡ false) ps j q
      (find-none (is_ref m.kind m.external_ref) (values ps) h) found

put-IsOne :
    (m : Principal) (ps : Principals)
    → find_by_ref m.kind m.external_ref ps ≡ none
    → IsOne ps
    → IsOne (put ps m.id m)
put-IsOne m ps none_ one i j p q hi hj kinds refs = elim (Bool-cases (m.id == i)) [
  | inl i_new ↦ elim (Bool-cases (m.id == j)) [
    | inl j_new ↦ sym ((nat_eq.beq_iff m.id i).0 i_new) ∙ (nat_eq.beq_iff m.id j).0 j_new
    | inr j_old ↦
        let old : get ps j ≡ some q = ground (arith, get-put ps m.id j m) in
        let same : m ≡ p = ground (arith, get-put ps m.id i m) in
        ground (
          arith,
          absent m ps j q none_ old,
          string_eq.beq_iff q.kind m.kind,
          nat_eq.beq_iff q.external_ref m.external_ref,
        )
  ]
  | inr i_old ↦ elim (Bool-cases (m.id == j)) [
    | inl j_new ↦
        let old : get ps i ≡ some p = ground (arith, get-put ps m.id i m) in
        let same : m ≡ q = ground (arith, get-put ps m.id j m) in
        ground (
          arith,
          absent m ps i p none_ old,
          string_eq.beq_iff p.kind m.kind,
          nat_eq.beq_iff p.external_ref m.external_ref,
        )
    | inr j_old ↦
        let p_old : get ps i ≡ some p = ground (arith, get-put ps m.id i m) in
        let q_old : get ps j ≡ some q = ground (arith, get-put ps m.id j m) in
        one i j p q p_old q_old kinds refs
  ]
]

mint_unless-IsOne :
    (m : Principal) (o : Option Principal) (ps : Principals)
    → find_by_ref m.kind m.external_ref ps ≡ o
    → IsOne ps
    → IsOne (mint_unless o m ps).1
unfolding mint_unless
mint_unless-IsOne m none ps h one = put-IsOne m ps h one
mint_unless-IsOne m (some existing) ps h one = one

-- A row of the second store has the actor of the row that the first has under its id.
abbrev Descends : Principals → Principals → Type 0
Descends ps qs =
    (i : Uuid) (q : Principal)
    → get qs i ≡ some q
    → (p : Principal) × (get ps i ≡ some p) × (p.kind ≡ q.kind) × (p.external_ref ≡ q.external_ref)

Descends-IsOne : (ps qs : Principals) → Descends ps qs → IsOne ps → IsOne qs
Descends-IsOne ps qs down one i j p q hi hj kinds refs =
    let (p', hp, kp, rp) = down i p hi in
    let (q', hq, kq, rq) = down j q hj in
    one i j p' q' hp hq (kp ∙ kinds ∙ sym kq) (rp ∙ refs ∙ sym rq)

rename_found-Descends :
    (k : Uuid) (name : String) (o : Option Principal) (ps : Principals)
    → get ps k ≡ o
    → Descends ps (rename_found k name o ps).1
unfolding rename_found
rename_found-Descends k name none ps e i q h = (q, h, refl, refl)
rename_found-Descends k name (some x) ps e i q h = elim (Bool-cases (k == i)) [
  | inl same ↦
      let renamed = record x { display_name = some name } in
      let r : renamed ≡ q = ground (arith, get-put ps k i renamed) in
      let at : k ≡ i = (nat_eq.beq_iff k i).0 same in
      (
        x,
        subst (λ t. get ps t ≡ some x) at e,
        ap (λ (t : Principal). t.kind) r,
        ap (λ (t : Principal). t.external_ref) r,
      )
  | inr other ↦
      (q, ground (arith, get-put ps k i (record x { display_name = some name })), refl, refl)
]

pop-Descends : (ps : Principals) (k : Uuid) → Descends ps (pop ps k)
pop-Descends ps k i q h = (q, ground (arith, get-pop ps k i), refl, refl)

delete_all-IsOne : (ids : List Uuid) (ps : Principals) → IsOne ps → IsOne (delete_all ids ps)
unfolding delete_all
delete_all-IsOne [] ps one = one
delete_all-IsOne (k ∷ ids) ps one =
    delete_all-IsOne ids (pop ps k) (Descends-IsOne ps (pop ps k) (pop-Descends ps k) one)

sweep-IsOne :
    (run_ids : Option (List Uuid)) (now older_than : Time) (ps : Principals)
    → IsOne ps
    → IsOne (sweep_orphaned_run_principals run_ids now older_than ps).1
unfolding sweep_orphaned_run_principals
sweep-IsOne none now older_than ps one = one
sweep-IsOne (some run_ids) now older_than ps one = delete_all-IsOne (orphans run_ids _ ps) ps one

-- One call of the storage that may change it.
pub data Call : Type 0 where
  mints :
      (new_id : Uuid) (now : Time) (kind : String) (external_ref : Uuid)
      (display_name : Option String)
      → Call
  renames : (principal_id : Uuid) (display_name : String) → Call
  deletes : (principal_id : Uuid) → Call
  sweeps : (run_ids : Option (List Uuid)) (now older_than : Time) → Call

abbrev pub step : Call → Principals → Principals
step (mints new_id now kind external_ref display_name) ps =
    (mint_principal new_id now kind external_ref display_name ps).1
step (renames principal_id display_name) ps = (update_display_name principal_id display_name ps).1
step (deletes principal_id) ps = delete_principal principal_id ps
step (sweeps run_ids now older_than) ps =
    (sweep_orphaned_run_principals run_ids now older_than ps).1

abbrev pub run : List Call → Principals → Principals
run [] ps = ps
run (c ∷ cs) ps = run cs (step c ps)

step-IsOne : (c : Call) (ps : Principals) → IsOne ps → IsOne (step c ps)
unfolding mint_principal update_display_name delete_principal
step-IsOne (mints new_id now kind external_ref display_name) ps one =
    mint_unless-IsOne
      (record {
        id = new_id;
        kind = kind;
        external_ref = external_ref;
        display_name = display_name;
        created_at = now;
      })
      (find_by_ref kind external_ref ps) ps refl one
step-IsOne (renames k name) ps one =
    Descends-IsOne ps _ (rename_found-Descends k name (get ps k) ps refl) one
step-IsOne (deletes k) ps one = Descends-IsOne ps _ (pop-Descends ps k) one
step-IsOne (sweeps run_ids now older_than) ps one = sweep-IsOne run_ids now older_than ps one

run-IsOne : (cs : List Call) (ps : Principals) → IsOne ps → IsOne (run cs ps)
run-IsOne [] ps one = one
run-IsOne (c ∷ cs) ps one = run-IsOne cs (step c ps) (step-IsOne c ps one)

empty-IsOne : IsOne []
unfolding get
empty-IsOne i j p q hi hj kinds refs = cc

minted_found :
    (m : Principal) (o : Option Principal) (ps : Principals)
    → find_by_ref m.kind m.external_ref ps ≡ o
    → find_by_ref m.kind m.external_ref (mint_unless o m ps).1 ≡ some (mint_unless o m ps).0
unfolding mint_unless find_by_ref
minted_found m none ps h =
    find-values-put (is_ref m.kind m.external_ref) ps m.id m
      (find-none (is_ref m.kind m.external_ref) (values ps) h) (is_ref_self m)
minted_found m (some existing) ps h = h

-- After any calls of the storage, starting from an empty one, no two principals stand for the same
-- actor, which is a kind and an external reference; and minting the actor's principal twice gives
-- the same principal both times, the second time leaving the storage as it is, whatever ids, times
-- and display names the two calls are given.
pub mint_principal_once :
    (cs : List Call) (id id' : Uuid) (now later : Time) (kind : String) (external_ref : Uuid)
    (name name' : Option String)
    → let ps = run cs [] in
      let first = mint_principal id now kind external_ref name ps in
      IsOne ps × (mint_principal id' later kind external_ref name' first.1 ≡ (first.0, first.1))
unfolding mint_principal
mint_principal_once cs id id' now later kind external_ref name name' =
    let ps = run cs [] in
    let m : Principal = record {
      id = id;
      kind = kind;
      external_ref = external_ref;
      display_name = name;
      created_at = now;
    } in
    let again = minted_found m (find_by_ref kind external_ref ps) ps refl in
    (run-IsOne cs [] empty-IsOne, rw (again, mint_unless) refl)
