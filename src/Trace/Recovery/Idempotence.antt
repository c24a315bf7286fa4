-- ===== src/Trace/Recovery/Idempotence.antt =====
-- Proofs on crash recovery (trace/src/orxtra/trace/_memory_backend.py).
use mathlib.Core.List.{append-nil}
use mathlib.Core.Option
use orxtra.Prelude.{
  ℕ, ◌+◌, ◌≡◌, ◌≢◌, refl, sym, ◌∙◌, ap, true, false, some, List, [], ◌∷◌, ◌++◌, ◌==◌, arith, length,
  length-append, count, nat_eq, Bool-cases, inl, inr,
}
use orxtra.Prelude.Dict.{Dict, get, values, get-map_values}
use orxtra.Trace.Transitions.{active, prechecking, postchecking, cancelled, task_status_eq}
use orxtra.Trace.Rows.{Uuid, Time, Task, Event, recovery}
use orxtra.Trace.Store.{Store}
use orxtra.Trace.Recovery.{
  is_interrupted, is_orphaned, reclaim_interrupted, clean_orphaned, reclaim_loop, clean_loop,
}
use orxtra.Trace.Recovery.Loops.{
  reclaimed, reclaim_rows, reclaim_changed, reclaim_none_left, reclaim_idle, clean_changed,
  clean_appended, clean_none_left, clean_idle,
}

-- A task that was under way when the process died.
pub data IsUnderWay (task : Task) : Type 0 where
  was_active : task.status ≡ active → IsUnderWay task
  was_prechecking : task.status ≡ prechecking → IsUnderWay task
  was_postchecking : task.status ≡ postchecking → IsUnderWay task

-- A task with any other status.
pub record IsIdle (task : Task) : Type 0 where
  pub inactive : task.status ≢ active
  pub unstarted : task.status ≢ prechecking
  pub unfinished : task.status ≢ postchecking

-- What the recovery makes of a row.
pub data Recovered (task : Task) : Task → Type 0 where
  interrupted : IsUnderWay task → Recovered task (record task { status = cancelled })
  untouched : IsIdle task → Recovered task task

-- The log of a recovery: one event for each task under way, in the order of the rows.
pub data Logged : List Task → List Event → Type 0 where
  nothing : Logged [] []
  skips :
      {task : Task} {tasks : List Task} {events : List Event}
      → IsIdle task
      → Logged tasks events
      → Logged (task ∷ tasks) events
  logs :
      {task : Task} {tasks : List Task} {event : Event} {events : List Event}
      → IsUnderWay task
      → event.event_type ≡ "crash_recovery"
      → event.run_id ≡ some task.run_id
      → event.task_id ≡ some task.id
      → event.body ≡ recovery "reclaim_interrupted"
      → Logged tasks events
      → Logged (task ∷ tasks) (event ∷ events)

under_way : (task : Task) → is_interrupted task ≡ true → IsUnderWay task
under_way task h = elim (Bool-cases (active == task.status)) [
  | inl one ↦ was_active (sym ((task_status_eq.beq_iff active task.status).0 one))
  | inr not_one ↦ elim (Bool-cases (prechecking == task.status)) [
    | inl two ↦ was_prechecking (sym ((task_status_eq.beq_iff prechecking task.status).0 two))
    | inr not_two ↦
        was_postchecking (sym ((task_status_eq.beq_iff postchecking task.status).0 (ground arith)))
  ]
]

idle : (task : Task) → is_interrupted task ≡ false → IsIdle task
idle task h = record {
  inactive = λ e. let q : is_interrupted task ≡ true = rw e refl in cc;
  unstarted = λ e. let q : is_interrupted task ≡ true = rw e refl in cc;
  unfinished = λ e. let q : is_interrupted task ≡ true = rw e refl in cc;
}

reclaimed-Recovered : (task : Task) → Recovered task (reclaimed task)
reclaimed-Recovered task = elim (Bool-cases (is_interrupted task)) [
  | inl h ↦ rw h (interrupted (under_way task h))
  | inr h ↦ rw h (untouched (idle task h))
]

module _ (ids : ℕ → Uuid) (times : ℕ → Time) where
  reclaim_loop-Logged :
      (k : ℕ) (tasks : Dict Uuid Task)
      → Logged (values tasks) (reclaim_loop ids times k tasks).appended
  unfolding reclaim_loop
  reclaim_loop-Logged k [] = nothing
  reclaim_loop-Logged k ((id, task) ∷ tasks) = elim (Bool-cases (is_interrupted task)) [
    | inl h ↦ rw h (logs (under_way task h) refl refl refl refl (reclaim_loop-Logged (k + 1) tasks))
    | inr h ↦ rw h (skips (idle task h) (reclaim_loop-Logged k tasks))
  ]

-- `reclaim_interrupted` cancels the tasks that are active, prechecking or postchecking and leaves
-- every other task as it is. It appends to the log one crash-recovery event for each task that it
-- cancels, with the ids of the task and of its run, in the order of the tasks, and returns
-- their number. A second call, whatever its ids and times, returns 0 and changes nothing.
pub reclaim_interrupted_settles :
    (ids ids' : ℕ → Uuid) (times times' : ℕ → Time) (s : Store) (i : Uuid) (task : Task)
    → get s.tasks i ≡ some task
    → ((after : Task) × (get (reclaim_interrupted ids times s).1.tasks i ≡ some after)
        × Recovered task after)
      × ((appended : List Event) × ((reclaim_interrupted ids times s).1.events
            ≡ s.events ++ appended)
          × Logged (values s.tasks) appended
          × ((reclaim_interrupted ids times s).0 ≡ length appended))
      × (reclaim_interrupted ids' times' (reclaim_interrupted ids times s).1
          ≡ (0, (reclaim_interrupted ids times s).1))
unfolding reclaim_interrupted
reclaim_interrupted_settles ids ids' times times' s i task found = (
  (
    reclaimed task,
    ap (λ d. get d i) (reclaim_rows ids times 0 s.tasks)
        ∙ get-map_values reclaimed s.tasks i
        ∙ ap (Option.map reclaimed) found,
    reclaimed-Recovered task,
  ),
  (
    (reclaim_loop ids times 0 s.tasks).appended,
    refl,
    reclaim_loop-Logged ids times 0 s.tasks,
    reclaim_changed ids times 0 s.tasks,
  ),
  rw
      (reclaim_idle ids' times' 0 (reclaim_loop ids times 0 s.tasks).rows
        (reclaim_none_left ids times 0 s.tasks))
      (rw append-nil),
)

-- `clean_orphaned` returns the number of running or paused runs that hold no lock and appends one
-- event for each, and a second call returns 0 and changes nothing.
clean_orphaned_settles :
    (ids ids' : ℕ → Uuid) (finished finished' times times' : ℕ → Time) (s : Store)
    → ((clean_orphaned ids finished times s).0 ≡ count (is_orphaned s.run_locks) (values s.runs))
      × (length (clean_orphaned ids finished times s).1.events
          ≡ length s.events + (clean_orphaned ids finished times s).0)
      × (clean_orphaned ids' finished' times' (clean_orphaned ids finished times s).1
          ≡ (0, (clean_orphaned ids finished times s).1))
unfolding clean_orphaned
clean_orphaned_settles ids ids' finished finished' times times' s =
    let swept = clean_loop ids finished times s.run_locks 0 s.runs in
    (
      clean_changed ids finished times s.run_locks 0 s.runs,
      omega (
        arith,
        clean_changed ids finished times s.run_locks 0 s.runs,
        clean_appended ids finished times s.run_locks 0 s.runs,
        length-append s.events swept.appended,
      ),
      rw
          (clean_idle ids' finished' times' s.run_locks 0 swept.rows
            (clean_none_left ids finished times s.run_locks 0 s.runs))
          (rw append-nil),
    )
