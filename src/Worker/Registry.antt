-- ===== src/Worker/Registry.antt =====
-- `WorkerRegistry` (worker/src/orxtra/worker/_registry.py). The id that `register` mints is an
-- argument, and a bridge is its number.
pub mod Consistent
pub mod Exclusive
use orxtra.Prelude.{
  ℕ, String, Bool, true, false, not, Option, none, some, List, [], ◌∷◌, ◌==◌, nat_eq, string_eq,
  length, filter, contains, if◌then◌else◌, Result, ok, err, value_error, key_error,
}
use orxtra.Prelude.Ids.{Uuid}
use orxtra.Prelude.Dict.{Dict, get, put, pop, values}

pub record WorkerInfo : Type 0 where
  pub id : Uuid
  pub consumer_id : Option Uuid
  pub root : String
  pub capabilities : List String
  pub bridge : ℕ
  pub assigned_tasks : List Uuid

pub record Registry : Type 0 where
  pub workers : Dict Uuid WorkerInfo
  pub root_to_worker : Dict String Uuid

abbrev pub empty_registry : Registry
empty_registry = record { workers = []; root_to_worker = [] }

-- `==` on optional ids.
unfoldable pub same_consumer : Option Uuid → Option Uuid → Bool
same_consumer none none = true
same_consumer none (some b) = false
same_consumer (some a) none = false
same_consumer (some a) (some b) = a == b

-- `existing_info is not None and existing_info.consumer_id == consumer_id`
unfoldable pub is_reconnection : (consumer_id : Option Uuid) → Option WorkerInfo → Bool
unfolding same_consumer
is_reconnection consumer_id none = false
is_reconnection consumer_id (some info) = same_consumer info.consumer_id consumer_id

unfoldable pub add_worker : WorkerInfo → Registry → Registry
add_worker info r = record r {
  workers = put r.workers info.id info;
  root_to_worker = put r.root_to_worker info.root info.id;
}

unfoldable pub remove_worker : (worker_id : Uuid) (root : String) → Registry → Registry
remove_worker worker_id root r = record r {
  workers = pop r.workers worker_id;
  root_to_worker = pop r.root_to_worker root;
}

-- By the worker that the root has. `value_error` is the `WorkerConflictError`.
unfoldable pub register_beside :
    Option Uuid → (info : WorkerInfo) → Registry → Result Uuid × Registry
unfolding add_worker remove_worker is_reconnection
register_beside none info r = (ok info.id, add_worker info r)
register_beside (some existing) info r =
    if is_reconnection info.consumer_id (get r.workers existing)
    then (ok info.id, add_worker info (remove_worker existing info.root r))
    else (err value_error, r)

unfoldable pub register :
    (worker_id : Uuid) (consumer_id : Option Uuid) (root : String) (capabilities : List String)
    (bridge : ℕ)
    → Registry
    → Result Uuid × Registry
unfolding register_beside
register worker_id consumer_id root capabilities bridge r =
    register_beside (get r.root_to_worker root)
      (record {
        id = worker_id;
        consumer_id = consumer_id;
        root = root;
        capabilities = capabilities;
        bridge = bridge;
        assigned_tasks = [];
      })
      r

unfoldable pub unregister_found : Option WorkerInfo → (worker_id : Uuid) → Registry → Registry
unfolding remove_worker
unregister_found none worker_id r = record r { workers = pop r.workers worker_id }
unregister_found (some info) worker_id r = remove_worker worker_id info.root r

unfoldable pub unregister : (worker_id : Uuid) → Registry → Registry
unfolding unregister_found
unregister worker_id r = unregister_found (get r.workers worker_id) worker_id r

unfoldable pub get_worker : (worker_id : Uuid) → Registry → Option WorkerInfo
get_worker worker_id r = get r.workers worker_id

unfoldable pub get_worker_for_root : (root : String) → Registry → Option WorkerInfo
get_worker_for_root root r = elim (get r.root_to_worker root) [
  | none ↦ none
  | some worker_id ↦ get r.workers worker_id
]

unfoldable pub with_tasks :
    Option WorkerInfo → (worker_id : Uuid) (tasks : List Uuid → List Uuid) → Registry → Registry
with_tasks none worker_id tasks r = r
with_tasks (some info) worker_id tasks r =
    let changed = record info { assigned_tasks = tasks info.assigned_tasks } in
    record r { workers = put r.workers worker_id changed }

-- A set of tasks has no order that is read.
abbrev pub add_task : (task_id : Uuid) → List Uuid → List Uuid
add_task task_id tasks = if contains tasks task_id then tasks else task_id ∷ tasks

abbrev pub discard_task : (task_id : Uuid) → List Uuid → List Uuid
discard_task task_id tasks = filter (λ task. not (task == task_id)) tasks

unfoldable pub assign_found :
    Option WorkerInfo → (worker_id task_id : Uuid) → Registry → Result (Unit {0}) × Registry
unfolding with_tasks
assign_found none worker_id task_id r = (err key_error, r)
assign_found (some info) worker_id task_id r =
    (ok tt, with_tasks (some info) worker_id (add_task task_id) r)

unfoldable pub assign_task : (worker_id task_id : Uuid) → Registry → Result (Unit {0}) × Registry
unfolding assign_found
assign_task worker_id task_id r = assign_found (get r.workers worker_id) worker_id task_id r

unfoldable pub unassign_task : (worker_id task_id : Uuid) → Registry → Registry
unfolding with_tasks
unassign_task worker_id task_id r =
    with_tasks (get r.workers worker_id) worker_id (discard_task task_id) r

unfoldable pub worker_count : Registry → ℕ
worker_count r = length r.workers

unfoldable pub list_workers : Registry → List WorkerInfo
list_workers r = values r.workers
