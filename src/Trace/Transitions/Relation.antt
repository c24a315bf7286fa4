-- ===== src/Trace/Transitions/Relation.antt =====
-- The lifecycle as relations: which status may follow which, and what a validator accepts.
use orxtra.Prelude.{◌≡◌, ◌↔◌, ◌⊎◌, inl, inr, refl, subst, true, contains, ok}
use orxtra.Trace.Transitions.{
  TaskStatus, RunStatus, prechecking, active, suspended, postchecking, precheck_failed,
  postcheck_failed, escalated, cancelled, running, paused, failed, aborted,
  validate_task_transition, validate_run_transition, task_terminal_states, task_status_eq,
  run_status_eq,
}

-- The lifecycle of a task.
pub data TaskStep : TaskStatus → TaskStatus → Type 0 where
  start : TaskStep TaskStatus.created prechecking
  precheck_passed : TaskStep prechecking active
  precheck_fails : TaskStep prechecking precheck_failed
  finish : TaskStep active postchecking
  suspend : TaskStep active suspended
  complete : TaskStep active TaskStatus.completed
  postcheck_passed : TaskStep postchecking TaskStatus.completed
  postcheck_fails : TaskStep postchecking postcheck_failed
  retry : TaskStep postcheck_failed active
  escalate : TaskStep postcheck_failed escalated
  resume : TaskStep suspended active
  cancel : {s : TaskStatus} → TaskStep s cancelled

-- The lifecycle of a run.
pub data RunStep : RunStatus → RunStatus → Type 0 where
  start : RunStep RunStatus.created running
  pause : RunStep running paused
  complete : RunStep running RunStatus.completed
  fail : RunStep running failed
  abort : RunStep running aborted
  resume : RunStep paused running
  abort_paused : RunStep paused aborted

task_accepts : {old new : TaskStatus} → TaskStep old new → validate_task_transition old new ≡ ok tt
unfolding validate_task_transition
task_accepts cancel = refl
task_accepts _ = refl

task_accepted : (old new : TaskStatus) → validate_task_transition old new ≡ ok tt → TaskStep old new
unfolding validate_task_transition
task_accepted TaskStatus.created prechecking h = TaskStep.start
task_accepted prechecking active h = precheck_passed
task_accepted prechecking precheck_failed h = precheck_fails
task_accepted active postchecking h = finish
task_accepted active suspended h = suspend
task_accepted active TaskStatus.completed h = TaskStep.complete
task_accepted postchecking TaskStatus.completed h = postcheck_passed
task_accepted postchecking postcheck_failed h = postcheck_fails
task_accepted postcheck_failed active h = retry
task_accepted postcheck_failed escalated h = escalate
task_accepted suspended active h = TaskStep.resume
task_accepted _ cancelled h = cancel
task_accepted _ _ h = cc

-- The task validator accepts exactly the steps of the task lifecycle.
pub validate_task_transition-iff-TaskStep :
    (old new : TaskStatus) → (validate_task_transition old new ≡ ok tt) ↔ TaskStep old new
validate_task_transition-iff-TaskStep old new = (task_accepted old new, task_accepts)

run_accepts : {old new : RunStatus} → RunStep old new → validate_run_transition old new ≡ ok tt
unfolding validate_run_transition
run_accepts RunStep.start = refl
run_accepts _ = refl

run_accepted : (old new : RunStatus) → validate_run_transition old new ≡ ok tt → RunStep old new
unfolding validate_run_transition
run_accepted RunStatus.created running h = RunStep.start
run_accepted running paused h = pause
run_accepted running RunStatus.completed h = RunStep.complete
run_accepted running failed h = fail
run_accepted running aborted h = abort
run_accepted paused running h = RunStep.resume
run_accepted paused aborted h = abort_paused
run_accepted _ _ h = cc

-- The run validator accepts exactly the steps of the run lifecycle.
validate_run_transition-iff-RunStep :
    (old new : RunStatus) → (validate_run_transition old new ≡ ok tt) ↔ RunStep old new
validate_run_transition-iff-RunStep old new = (run_accepted old new, run_accepts)

-- Any number of transitions that the validator accepts.
pub data Validated (s : TaskStatus) : TaskStatus → Type 0 where
  here : Validated s s
  next : {t u : TaskStatus} → Validated s t → validate_task_transition t u ≡ ok tt → Validated s u

abbrev pub Terminal : TaskStatus → Type 0
Terminal s = contains task_terminal_states s ≡ true

step-Terminal : {s t : TaskStatus} → TaskStep s t → Terminal s → t ≡ cancelled
step-Terminal cancel h = refl
step-Terminal TaskStep.start h = cc
step-Terminal _ h = cc

-- Through any transitions that the validator accepts, a terminal status is left, if at all, for
-- `cancelled`, and `cancelled` is left for nothing else.
pub Validated-Terminal : {s t : TaskStatus} → Validated s t → Terminal s → (t ≡ s) ⊎ (t ≡ cancelled)
Validated-Terminal here h = inl refl
Validated-Terminal {s} {t = u} (next {t = t} r valid) h =
    let st : TaskStep t u = task_accepted t u valid in
    elim (Validated-Terminal r h) [
      | inl same ↦ inr (step-Terminal st (let q : s ≡ t = cc in subst Terminal q h))
      | inr gone ↦ inr (step-Terminal st (let q : cancelled ≡ t = cc in subst Terminal q refl))
    ]
