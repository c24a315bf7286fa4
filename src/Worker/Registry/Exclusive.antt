-- ===== src/Worker/Registry/Exclusive.antt =====
-- One worker for each project root (worker/src/orxtra/worker/_registry.py).
use mathlib.Core.Option.{some-injective}
use orxtra.Prelude.{
  ◌≡◌, refl, sym, ◌∙◌, ap, subst, ℕ, String, Option, none, some, List, [], nat_eq, string_eq,
  Option-cases, inl, inr,
}
use orxtra.Prelude.Ids.{Uuid}
use orxtra.Prelude.Dict.{get}
use orxtra.Worker.Registry.{
  WorkerInfo, Registry, empty_registry, register, unregister, get_worker, get_worker_for_root,
  add_task, discard_task, assign_found, assign_task, unassign_task,
}
use orxtra.Worker.Registry.Consistent.{
  IsConsistent, with_tasks-IsConsistent, register_beside-IsConsistent,
  unregister_found-IsConsistent,
}

-- The registries that calls lead to from an empty one, where each id that is minted is new.
pub data Reachable : Registry → Type 0 where
  empty : Reachable empty_registry
  registered :
      {r : Registry}
      → Reachable r
      → (i : Uuid) (consumer_id : Option Uuid) (root : String) (capabilities : List String)
        (bridge : ℕ)
      → get_worker i r ≡ none
      → Reachable (register i consumer_id root capabilities bridge r).1
  unregistered : {r : Registry} → Reachable r → (i : Uuid) → Reachable (unregister i r)
  assigned : {r : Registry} → Reachable r → (i task : Uuid) → Reachable (assign_task i task r).1
  unassigned : {r : Registry} → Reachable r → (i task : Uuid) → Reachable (unassign_task i task r)

assign_found-IsConsistent :
    (r : Registry) (o : Option WorkerInfo) (i task : Uuid)
    → get r.workers i ≡ o
    → IsConsistent r
    → IsConsistent (assign_found o i task r).1
unfolding assign_found
assign_found-IsConsistent r none i task h c = c
assign_found-IsConsistent r (some info) i task h c =
    with_tasks-IsConsistent r (some info) i (add_task task) h c

Reachable-IsConsistent : {r : Registry} → Reachable r → IsConsistent r
unfolding get register unregister assign_task unassign_task get_worker
Reachable-IsConsistent empty = record { owned = λ root i h. cc; pointed = λ i info h. cc }
Reachable-IsConsistent (registered {r} reach i consumer_id root capabilities bridge fresh) =
    register_beside-IsConsistent r (get r.root_to_worker root)
      (record {
        id = i;
        consumer_id = consumer_id;
        root = root;
        capabilities = capabilities;
        bridge = bridge;
        assigned_tasks = [];
      })
      refl fresh (Reachable-IsConsistent reach)
Reachable-IsConsistent (unregistered {r} reach i) =
    unregister_found-IsConsistent r (get r.workers i) i refl (Reachable-IsConsistent reach)
Reachable-IsConsistent (assigned {r} reach i task) =
    assign_found-IsConsistent r (get r.workers i) i task refl (Reachable-IsConsistent reach)
Reachable-IsConsistent (unassigned {r} reach i task) =
    with_tasks-IsConsistent r (get r.workers i) i (discard_task task) refl
      (Reachable-IsConsistent reach)

for_root :
    (r : Registry) (root : String) (o : Option Uuid)
    → get r.root_to_worker root ≡ o
    → get_worker_for_root root r ≡ elim o [ none ↦ none | some i ↦ get r.workers i ]
unfolding get_worker_for_root
for_root r root o h = rw (h, get_worker_for_root) refl

-- In every registry that calls lead to, where each minted id is new, a project root has at most one
-- worker: two registered workers of the same root have the same id, the look-up by its root finds
-- each registered worker, and what a look-up by root finds is a worker of that root.
pub Reachable-one_per_root :
    {r : Registry}
    → Reachable r
    → ((i j : Uuid) (v w : WorkerInfo)
        → get_worker i r ≡ some v
        → get_worker j r ≡ some w
        → v.root ≡ w.root
        → i ≡ j)
      × ((i : Uuid) (v : WorkerInfo)
          → get_worker i r ≡ some v
          → get_worker_for_root v.root r ≡ some v)
      × ((root : String) (v : WorkerInfo) → get_worker_for_root root r ≡ some v → v.root ≡ root)
unfolding get_worker
Reachable-one_per_root {r} reach =
    let c = Reachable-IsConsistent reach in
    (
      λ i j v w hi hj same.
          let p : get r.root_to_worker w.root ≡ some i =
            subst (λ k. get r.root_to_worker k ≡ some i) same (c.pointed i v hi) in
          some-injective i j (sym p ∙ c.pointed j w hj),
      λ i v h. for_root r v.root (some i) (c.pointed i v h) ∙ h,
      λ root v h. elim (Option-cases (get r.root_to_worker root)) [
        | inl none_ ↦ let e : none ≡ some v = sym (for_root r root none none_) ∙ h in cc
        | inr (i, found) ↦
            let (w, stored, at) = c.owned root i found in
            let e : w ≡ v =
              some-injective w v (sym stored ∙ sym (for_root r root (some i) found) ∙ h) in
            ap (λ (x : WorkerInfo). x.root) (sym e) ∙ at
      ],
    )
