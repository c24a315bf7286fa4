-- ===== src/Trace/Recovery.antt =====
-- `InMemoryBackend`: the methods of StorageLock and RecoveryOperations.
-- `ids k` and `times k` are the values of `uuid6.uuid7()` and `_now()` for the k-th row that a loop
-- changes; the run loop takes the time twice, and `finished k` is the first of the two.
pub mod Loops
pub mod Idempotence
use orxtra.Prelude.{
  ℕ, ◌+◌, ◌-◌, suc, String, Bool, true, false, not, ◌&&◌, Option, none, some, List, [], ◌∷◌, ◌++◌,
  nat_eq, ltb, contains, ◌==◌, if◌then◌else◌, Result, ok, err, run_lock_error,
}
use orxtra.Prelude.Dict.{Dict, get, put, pop}
use orxtra.Trace.Transitions.{
  TaskStatus, RunStatus, prechecking, active, postchecking, cancelled, running, paused, failed,
  task_status_eq, run_status_eq,
}
use orxtra.Trace.Rows.{Uuid, Time, Seconds, Run, Task, Event, recovery}
use orxtra.Trace.Store.{Store, Method, inmemory_system_principal_id}

-- `self._run_locks.get(run_id)` as a truth value.
abbrev pub is_locked : Dict Uuid Bool → Uuid → Bool
is_locked locks run_id = elim (get locks run_id) [ none ↦ false | some held ↦ held ]

unfoldable pub acquire_run_lock : (run_id : Uuid) → Method (Unit {0})
acquire_run_lock run_id s =
    if is_locked s.run_locks run_id
    then (err run_lock_error, s)
    else (ok tt, record s { run_locks = put s.run_locks run_id true })

unfoldable pub release_run_lock : (run_id : Uuid) → Store → Store
release_run_lock run_id s = record s { run_locks = pop s.run_locks run_id }

-- `time.monotonic()` is an argument.
unfoldable pub update_heartbeat : (monotonic : Time) (run_id : Uuid) → Store → Store
update_heartbeat monotonic run_id s = record s { heartbeats = put s.heartbeats run_id monotonic }

-- A heartbeat later than `monotonic` gives a negative age there, which no threshold is below.
unfoldable pub is_lock_stale :
    (monotonic : Time) (run_id : Uuid) (threshold_seconds : Seconds) → Store → Bool
is_lock_stale monotonic run_id threshold_seconds s = elim (get s.heartbeats run_id) [
  | none ↦ true
  | some last ↦ ltb threshold_seconds (monotonic - last)
]

abbrev pub recovery_event :
    (fresh : Uuid) (now : Time) (run_id : Uuid) (task_id : Option Uuid) (action : String) → Event
recovery_event fresh now run_id task_id action = record {
  id = fresh;
  run_id = some run_id;
  task_id = task_id;
  principal_id = inmemory_system_principal_id;
  event_type = "crash_recovery";
  body = recovery action;
  idempotency_key = none;
  created_at = now;
}

abbrev pub is_interrupted : Task → Bool
is_interrupted task = contains (active ∷ prechecking ∷ postchecking ∷ []) task.status

-- What a recovery loop has built: the rows, the events that it appended, the number of changed rows.
pub record Swept {ℓ} (V : Type ℓ) : Type ℓ where
  pub rows : Dict Uuid V
  pub appended : List Event
  pub changed : ℕ

module _ (ids : ℕ → Uuid) (times : ℕ → Time) where
  -- `k` rows have been changed before.
  unfoldable pub reclaim_loop : ℕ → Dict Uuid Task → Swept Task
  reclaim_loop k [] = record { rows = []; appended = []; changed = 0 }
  reclaim_loop k ((id, task) ∷ tasks) =
      let rest = reclaim_loop (if is_interrupted task then k + 1 else k) tasks in
      if is_interrupted task
      then record {
        rows = (id, record task { status = cancelled }) ∷ rest.rows;
        appended =
            recovery_event (ids k) (times k) task.run_id (some task.id) "reclaim_interrupted"
            ∷ rest.appended;
        changed = rest.changed + 1;
      }
      else record {
        rows = (id, task) ∷ rest.rows;
        appended = rest.appended;
        changed = rest.changed;
      }

  unfoldable pub reclaim_interrupted : Store → ℕ × Store
  unfolding reclaim_loop
  reclaim_interrupted s =
      let swept = reclaim_loop 0 s.tasks in
      (swept.changed, record s { tasks = swept.rows; events = s.events ++ swept.appended })

-- The two conditions under which a created task may start.
abbrev is_unblocked : Dict Uuid Task → Task → Bool
is_unblocked tasks task = elim task.parent_task_id [
  | none ↦ true
  | some parent_id ↦ elim (get tasks parent_id) [
    | none ↦ false
    | some parent ↦ parent.status == TaskStatus.completed
  ]
]

unfoldable pub reevaluate_loop : Dict Uuid Task → Dict Uuid Task → List Uuid
reevaluate_loop tasks [] = []
reevaluate_loop tasks ((id, task) ∷ rest) =
    if task.status == TaskStatus.created && is_unblocked tasks task
    then task.id ∷ reevaluate_loop tasks rest
    else reevaluate_loop tasks rest

unfoldable pub reevaluate_blocked : Store → List Uuid
unfolding reevaluate_loop
reevaluate_blocked s = reevaluate_loop s.tasks s.tasks

-- A run that is under way, with no lock held on it.
abbrev pub is_orphaned : Dict Uuid Bool → Run → Bool
is_orphaned locks run = contains (running ∷ paused ∷ []) run.status && not (is_locked locks run.id)

module _ (ids : ℕ → Uuid) (finished times : ℕ → Time) where
  unfoldable pub clean_loop : Dict Uuid Bool → ℕ → Dict Uuid Run → Swept Run
  clean_loop locks k [] = record { rows = []; appended = []; changed = 0 }
  clean_loop locks k ((id, run) ∷ runs) =
      let rest = clean_loop locks (if is_orphaned locks run then k + 1 else k) runs in
      if is_orphaned locks run
      then record {
        rows = (id, record run { status = failed; finished_at = some (finished k) }) ∷ rest.rows;
        appended = recovery_event (ids k) (times k) run.id none "clean_orphaned" ∷ rest.appended;
        changed = rest.changed + 1;
      }
      else record { rows = (id, run) ∷ rest.rows; appended = rest.appended; changed = rest.changed }

  unfoldable pub clean_orphaned : Store → ℕ × Store
  unfolding clean_loop
  clean_orphaned s =
      let swept = clean_loop s.run_locks 0 s.runs in
      (swept.changed, record s { runs = swept.rows; events = s.events ++ swept.appended })
