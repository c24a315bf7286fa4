-- ===== src/Trace/Ops/Log.antt =====
-- Proofs on the event log as a record of the statuses of tasks
-- (trace/src/orxtra/trace/_memory_backend.py).
use orxtra.Prelude.{String, ◌≡◌, refl, ◌∙◌, Option, some, List, [], ◌∷◌, nat_eq, arith}
use orxtra.Prelude.Dict.{get}
use orxtra.Trace.Transitions.{TaskStatus, RunStatus}
use orxtra.Trace.Rows.{Uuid, Time, Task}
use orxtra.Trace.Store.{Store, empty_store}
use orxtra.Trace.Tasks
use orxtra.Trace.Runs
use orxtra.Trace.Tasks.{task_event}
use orxtra.Trace.Runs.{run_event}
use orxtra.Trace.Events.{new_event}
use orxtra.Trace.Recovery.Loops.{reclaim_rows}
use orxtra.Trace.Ops.{Op, step, steps}
use orxtra.Trace.Ops.Replay.{
  replay, replay-append, replay_clean, effect_transition, effect_foreign, effect_taskless,
}
use orxtra.Trace.Ops.Audit.{
  IsAudited, Admissible, step-Unique, step-Keyed, told_after, told_create, told_transition,
  told_reclaim,
}

module _ (s : Store) (v : IsAudited s) (t : Uuid) where
  Told : Store → Type 0
  Told s' =
      (task : Task)
      → get s'.tasks t ≡ some task
      → replay t TaskStatus.created s'.events ≡ task.status

  Told-task :
      (fresh : Uuid) (now : Time) (task_id : Uuid) (new : TaskStatus) (reason : Option String)
      (principal : Uuid)
      → Tasks.Outcomes.Outcome fresh now task_id new reason principal s
      → Told (Tasks.transition_task fresh now task_id new reason principal s).1
  unfolding Told
  Told-task fresh now task_id new reason principal (Tasks.Outcomes.raised e out) = rw out (v.told t)
  Told-task fresh now task_id new reason principal (Tasks.Outcomes.moved old found valid out) =
      rw out λ task h.
        told_transition s v t (task_event fresh now old task_id new reason principal) task_id new
          old task (effect_transition t fresh now old task_id new reason principal) h

  Told-run :
      (fresh : Uuid) (finished now : Time) (r : Uuid) (new : RunStatus) (reason : Option String)
      (principal : Uuid)
      → Runs.Outcomes.Outcome fresh finished now r new reason principal s
      → Told (Runs.transition_run fresh finished now r new reason principal s).1
  unfolding Told
  Told-run fresh finished now r new reason principal (Runs.Outcomes.raised e out) =
      rw out (v.told t)
  Told-run fresh finished now r new reason principal (Runs.Outcomes.moved run found valid out) =
      let ev = run_event fresh now run r new reason principal in
      rw out λ task h. told_after s v t ev task (λ st. effect_taskless t ev st refl) h

step_told :
    (op : Op) (s : Store)
    → IsAudited s
    → Admissible op s
    → (t : Uuid) (task : Task) → get (step op s).tasks t ≡ some task
    → replay t TaskStatus.created (step op s).events ≡ task.status
unfolding step Told
step_told (Op.create_task fresh now run_id parent name task_type config) s v a t task h =
    told_create s v t fresh _ task refl a.1 h
step_told (Op.transition_task fresh now task_id new reason principal) s v a t task h =
    Told-task s v t fresh now task_id new reason principal (Tasks.Outcomes.outcome _ _ _ _ _ _ s)
      task h
step_told (Op.write_event fresh now run_id event_type body task_id principal key) s v a t task h =
    let ev = new_event fresh now run_id event_type body task_id principal key in
    ground (arith, v.told t task, told_after s v t ev task (λ st. effect_foreign t ev st a))
step_told (Op.transition_run fresh finished now r new reason principal) s v a t task h =
    Told-run s v t fresh finished now r new reason principal (Runs.Outcomes.outcome _ _ _ _ _ _ _ s)
      task h
step_told (Op.reclaim_interrupted ids times) s v a t task h =
    told_reclaim s v t ids times task (rw (reclaim_rows ids times 0 s.tasks) at h)
step_told (Op.clean_orphaned ids finished times) s v a t task h =
    replay-append t TaskStatus.created s.events _
    ∙ replay_clean ids finished times s.run_locks 0 s.runs t _
    ∙ v.told t task h
step_told _ s v a t task h = ground (arith, v.told t task)

pub step-IsAudited : (op : Op) (s : Store) → Admissible op s → IsAudited s → IsAudited (step op s)
step-IsAudited op s a v = record {
  unique = step-Unique op s v;
  keyed = step-Keyed op s v;
  told = step_told op s v a;
}

-- Each call is admissible in the store that it meets.
abbrev pub AllAdmissible : List Op → Store → Type 0
AllAdmissible [] s = Unit
AllAdmissible (op ∷ ops) s = Admissible op s × AllAdmissible ops (step op s)

steps-IsAudited :
    (ops : List Op) (s : Store) → AllAdmissible ops s → IsAudited s → IsAudited (steps ops s)
unfolding steps
steps-IsAudited [] s a v = v
steps-IsAudited (op ∷ ops) s a v = steps-IsAudited ops (step op s) a.1 (step-IsAudited op s a.0 v)

empty-IsAudited : IsAudited empty_store
unfolding get
empty-IsAudited = record { unique = tt; keyed = tt; told = λ t task h. cc }

-- From an empty backend, after any calls, crash recovery included, the event log tells the status of
-- every task: replaying the log from `created` gives it. The calls give each new task an id that no
-- row or event has, and write no event of the types `task_transition` and `crash_recovery` directly.
pub replay-eq-status :
    (ops : List Op) (t : Uuid) (task : Task)
    → AllAdmissible ops empty_store
    → get (steps ops empty_store).tasks t ≡ some task
    → replay t TaskStatus.created (steps ops empty_store).events ≡ task.status
replay-eq-status ops t task a h = (steps-IsAudited ops empty_store a empty-IsAudited).told t task h
