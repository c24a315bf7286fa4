-- ===== src/Samples/Lifecycle.antt =====
-- Applications of the theorems on the lifecycles of tasks and runs
-- (trace/src/orxtra/trace/_transitions.py).
use orxtra.Prelude.{◌≡◌, ◌↔◌, ◌⊎◌, refl, ok}
use orxtra.Trace.Transitions.{TaskStatus, validate_task_transition}
use orxtra.Trace.Transitions.Relation.{
  TaskStep, Validated, validate_task_transition-iff-TaskStep, Validated-Terminal,
}

validate_task_transition-iff-TaskStep_example :
    (validate_task_transition TaskStatus.suspended TaskStatus.active ≡ ok tt)
    ↔ TaskStep TaskStatus.suspended TaskStatus.active
validate_task_transition-iff-TaskStep_example =
    validate_task_transition-iff-TaskStep TaskStatus.suspended TaskStatus.active

Validated-Terminal_example :
    (TaskStatus.cancelled ≡ TaskStatus.completed) ⊎ (TaskStatus.cancelled ≡ TaskStatus.cancelled)
Validated-Terminal_example =
    Validated-Terminal {s = TaskStatus.completed} {t = TaskStatus.cancelled}
      (Validated.next Validated.here (
        (validate_task_transition-iff-TaskStep TaskStatus.completed TaskStatus.cancelled).1
          TaskStep.cancel))
      refl
