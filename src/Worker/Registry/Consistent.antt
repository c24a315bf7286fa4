-- ===== src/Worker/Registry/Consistent.antt =====
-- The two tables of `WorkerRegistry` agree (worker/src/orxtra/worker/_registry.py).
use orxtra.Prelude.{
  ◌≡◌, ◌∙◌, ap, subst, String, Option, none, some, List, ◌==◌, nat_eq, string_eq, Bool-cases, inl,
  inr, arith,
}
use orxtra.Prelude.Ids.{Uuid}
use orxtra.Prelude.Dict.{get, get-put, get-pop}
use orxtra.Worker.Registry.{
  WorkerInfo, Registry, is_reconnection, add_worker, remove_worker, register_beside,
  unregister_found, with_tasks,
}

-- The two tables agree: a root points at a worker registered for it, and a worker is the one that
-- its root points at.
pub record IsConsistent (r : Registry) : Type 0 where
  pub owned :
      (root : String) (i : Uuid)
      → get r.root_to_worker root ≡ some i
      → (info : WorkerInfo) × (get r.workers i ≡ some info) × (info.root ≡ root)
  pub pointed :
      (i : Uuid) (info : WorkerInfo)
      → get r.workers i ≡ some info
      → get r.root_to_worker info.root ≡ some i

module _ (r : Registry) (c : IsConsistent r) where
  remove_worker-IsConsistent :
      (i : Uuid) (info : WorkerInfo)
      → get r.workers i ≡ some info
      → IsConsistent (remove_worker i info.root r)
  unfolding remove_worker
  remove_worker-IsConsistent i info h = record {
    owned = λ root j g. elim (Bool-cases (info.root == root)) [
      | inl same ↦ ground (arith, get-pop r.root_to_worker info.root root)
      | inr differ ↦
          let old : get r.root_to_worker root ≡ some j =
            ground (arith, get-pop r.root_to_worker info.root root) in
          let (w, found, at) = c.owned root j old in
          elim (Bool-cases (i == j)) [
            | inl here ↦
                let p : i ≡ j = (nat_eq.beq_iff i j).0 here in
                let q : get r.workers j ≡ some info =
                  subst (λ k. get r.workers k ≡ some info) p h in
                let e : info ≡ w = cc in
                ground (arith, string_eq.beq_iff info.root root, ap (λ (x : WorkerInfo). x.root) e)
            | inr there ↦ (w, ground (arith, get-pop r.workers i j), at)
          ]
    ];
    pointed = λ j w g. elim (Bool-cases (i == j)) [
      | inl here ↦ ground (arith, get-pop r.workers i j)
      | inr there ↦
          let old : get r.workers j ≡ some w = ground (arith, get-pop r.workers i j) in
          let mine = c.pointed i info h in
          let other = c.pointed j w old in
          elim (Bool-cases (info.root == w.root)) [
            | inl same ↦
                let p : info.root ≡ w.root = (string_eq.beq_iff _ _).0 same in
                let e : get r.root_to_worker w.root ≡ some i =
                  subst (λ k. get r.root_to_worker k ≡ some i) p mine in
                ground (arith, nat_eq.beq_iff i j)
            | inr differ ↦ ground (arith, get-pop r.root_to_worker info.root w.root)
          ]
    ];
  }

  add_worker-IsConsistent :
      (info : WorkerInfo)
      → get r.workers info.id ≡ none
      → get r.root_to_worker info.root ≡ none
      → IsConsistent (add_worker info r)
  unfolding add_worker
  add_worker-IsConsistent info fresh free = record {
    owned = λ root j g. elim (Bool-cases (info.root == root)) [
      | inl same ↦
          let q : info.id ≡ j = ground (arith, get-put r.root_to_worker info.root root info.id) in
          (
            info,
            ground (arith, get-put r.workers info.id j info, nat_eq.beq_iff info.id j),
            (string_eq.beq_iff _ _).0 same,
          )
      | inr differ ↦
          let old : get r.root_to_worker root ≡ some j =
            ground (arith, get-put r.root_to_worker info.root root info.id) in
          let (w, found, at) = c.owned root j old in
          (w, ground (arith, get-put r.workers info.id j info, nat_eq.beq_iff info.id j), at)
    ];
    pointed = λ j w g. elim (Bool-cases (info.id == j)) [
      | inl here ↦
          let q : info ≡ w = ground (arith, get-put r.workers info.id j info) in
          rw (← q) (
            ground (
              arith,
              get-put r.root_to_worker info.root info.root info.id,
              string_eq.beq_iff info.root info.root,
              nat_eq.beq_iff info.id j,
            ))
      | inr there ↦
          let old : get r.workers j ≡ some w = ground (arith, get-put r.workers info.id j info) in
          let other = c.pointed j w old in
          ground (
            arith,
            get-put r.root_to_worker info.root w.root info.id,
            string_eq.beq_iff info.root w.root,
          )
    ];
  }

-- Only the tasks of a worker change.
pub with_tasks-IsConsistent :
    (r : Registry) (o : Option WorkerInfo) (i : Uuid) (f : List Uuid → List Uuid)
    → get r.workers i ≡ o
    → IsConsistent r
    → IsConsistent (with_tasks o i f r)
unfolding with_tasks
with_tasks-IsConsistent r none i f h c = c
with_tasks-IsConsistent r (some info) i f h c =
    let changed = record info { assigned_tasks = f info.assigned_tasks } in
    record {
      owned = λ root j g.
          let (w, found, at) = c.owned root j g in
          elim (Bool-cases (i == j)) [
            | inl here ↦
                let p : i ≡ j = (nat_eq.beq_iff i j).0 here in
                let q : get r.workers j ≡ some info =
                  subst (λ k. get r.workers k ≡ some info) p h in
                let e : info ≡ w = cc in
                (
                  changed,
                  ground (arith, get-put r.workers i j changed),
                  ap (λ (x : WorkerInfo). x.root) e ∙ at,
                )
            | inr there ↦ (w, ground (arith, get-put r.workers i j changed), at)
          ];
      pointed = λ j w g. elim (Bool-cases (i == j)) [
        | inl here ↦
            let q : changed ≡ w = ground (arith, get-put r.workers i j changed) in
            let p : i ≡ j = (nat_eq.beq_iff i j).0 here in
            subst (λ k. get r.root_to_worker w.root ≡ some k) p
              (subst (λ k. get r.root_to_worker k ≡ some i) (ap (λ (x : WorkerInfo). x.root) q)
                (c.pointed i info h))
        | inr there ↦ c.pointed j w (ground (arith, get-put r.workers i j changed))
      ];
    }

still_fresh :
    (r : Registry) (i j : Uuid) (root : String)
    → get r.workers j ≡ none
    → get (remove_worker i root r).workers j ≡ none
unfolding remove_worker
still_fresh r i j root h = ground (arith, get-pop r.workers i j)

freed :
    (r : Registry) (i : Uuid) (root : String)
    → get (remove_worker i root r).root_to_worker root ≡ none
unfolding remove_worker
freed r i root = ground (arith, get-pop r.root_to_worker root root, string_eq.beq_iff root root)

-- What a registration makes of the tables, where the id is new.
pub register_beside-IsConsistent :
    (r : Registry) (o : Option Uuid) (info : WorkerInfo)
    → get r.root_to_worker info.root ≡ o
    → get r.workers info.id ≡ none
    → IsConsistent r
    → IsConsistent (register_beside o info r).1
unfolding register_beside
register_beside-IsConsistent r none info free fresh c = add_worker-IsConsistent r c info fresh free
register_beside-IsConsistent r (some i) info taken fresh c =
    elim (Bool-cases (is_reconnection info.consumer_id (get r.workers i))) [
      | inr stranger ↦ rw stranger c
      | inl again ↦
          let (w, found, at) = c.owned info.root i taken in
          let emptied = remove_worker i info.root r in
          let c' : IsConsistent emptied =
            subst (λ root. IsConsistent (remove_worker i root r)) at
              (remove_worker-IsConsistent r c i w found) in
          rw again (
            add_worker-IsConsistent emptied c' info (still_fresh r i info.id info.root fresh)
              (freed r i info.root))
    ]

pub unregister_found-IsConsistent :
    (r : Registry) (o : Option WorkerInfo) (i : Uuid)
    → get r.workers i ≡ o
    → IsConsistent r
    → IsConsistent (unregister_found o i r)
unfolding unregister_found
unregister_found-IsConsistent r (some info) i h c = remove_worker-IsConsistent r c i info h
unregister_found-IsConsistent r none i h c = record {
  owned = λ root j g.
      let (w, found, at) = c.owned root j g in
      (w, ground (arith, get-pop r.workers i j, nat_eq.beq_iff i j), at);
  pointed = λ j w g. c.pointed j w (ground (arith, get-pop r.workers i j));
}
