-- ===== src/Scheduler/Lifecycle/Handlers.antt =====
-- `LifecycleHandlersMixin` (scheduler/src/orxtra/scheduler/_lifecycle_handlers.py). Arguments are
-- parsed. What checks, constraint checkers, git and the scrubbing of secrets give is an argument,
-- as are the id and the time of each event of the trace. Of `_auto_commit` the handlers see only
-- whether it raises: it returns nothing, and does not look at the return code of the commit.
use orxtra.Prelude.{
  ℕ, String, Bool, false, not, Option, none, some, List, [], ◌∷◌, ◌++◌, ◌==◌, string_eq, nat_eq,
  filter, if◌then◌else◌, Result, ok, err, key_error, tool_error,
}
use orxtra.Prelude.Ids.{Uuid}
use orxtra.Prelude.Dict.{get, put, pop}
use orxtra.Trace.Transitions.{
  TaskStatus, prechecking, active, postchecking, precheck_failed, postcheck_failed, task_status_eq,
}
use orxtra.Trace.Tasks.{transition_task}
use orxtra.Scheduler.Lifecycle.{
  TaskSpec, Scheduler, Handler, continue, children_of, complete_task, CheckResult, all_passed,
  failures, RunChecks, run_prechecks, run_postchecks,
}
use orxtra.Scheduler.Lifecycle.Constraints.{Check, is_nonempty, run_mechanical_constraints}

-- The text that a handler returns.
pub data Reply : Type 0 where
  now_active completed : Reply
  prechecks_failed postchecks_failed constraints_failed : (messages : List String) → Reply
  made : (task_id : Uuid) → Reply
  will_await : (task_id : Uuid) → Reply

abbrev pub is_complete : Option TaskStatus → Bool
is_complete none = false
is_complete (some state) = state == TaskStatus.completed

-- The children that keep a task from ending.
unfoldable pub incomplete : Uuid → Scheduler → List Uuid
unfolding children_of
incomplete task_id s = filter (λ c. not (is_complete (get s.task_states c))) (children_of task_id s)

unfoldable pub or_raise : Option Uuid → Result Uuid
or_raise none = err tool_error
or_raise (some task_id) = ok task_id

unfoldable pub check_active_task : (session_id : String) → Scheduler → Result Uuid
unfolding or_raise
check_active_task session_id s = or_raise (get s.active_tasks session_id)

-- The call of a callback that is given.
abbrev called_back : Option String → (task_id : Uuid) → List (String × Uuid)
called_back none task_id = []
called_back (some callback) task_id = (callback, task_id) ∷ []

module _ (fresh now : ℕ → ℕ) where
  -- `transition_task` of the trace, as the k-th transition of a handler.
  unfoldable pub write_transition :
      (k : ℕ) (task_id : Uuid) (new_status : TaskStatus) → Handler (Unit {0})
  unfolding transition_task
  write_transition k task_id new_status s =
      let r =
        transition_task (fresh k) (now k) task_id new_status none s.run_principal_id s.trace in
      (r.0, record s { trace = r.1 })

  -- The assignment to `_task_states` and the transition that follows it.
  unfoldable pub move : (k : ℕ) (task_id : Uuid) (new_status : TaskStatus) → Handler (Unit {0})
  unfolding write_transition
  move k task_id new_status s =
      write_transition k task_id new_status
        (record s { task_states = put s.task_states task_id new_status })

  -- What follows the prechecks.
  unfoldable pub judge_prechecks :
      (session_id : String) (task_id : Uuid) → Result (List CheckResult) → Handler Reply
  unfolding move
  judge_prechecks session_id task_id (err raised) s = (err raised, s)
  judge_prechecks session_id task_id (ok results) s =
      if all_passed results
      then continue (move 1 task_id active s) (λ _ s'.
        (ok now_active, record s' { active_tasks = put s'.active_tasks session_id task_id }))
      else continue (move 1 task_id precheck_failed s)
          (λ _ s'. (ok (prechecks_failed (failures results)), s'))

  module _ (run_checks : RunChecks) where
    unfoldable pub precheck :
        (session_id : String) (task_id : Uuid) → Option TaskSpec → Handler Reply
    unfolding judge_prechecks run_prechecks
    precheck session_id task_id none s = (err key_error, s)
    precheck session_id task_id (some task) s =
        judge_prechecks session_id task_id (run_prechecks run_checks task task_id s) s

    unfoldable pub start_found :
        (session_id : String) (task_id : Uuid) → Option TaskStatus → Handler Reply
    unfolding precheck move
    start_found session_id task_id none s = (err tool_error, s)
    start_found session_id task_id (some state) s =
        if state == TaskStatus.created
        then continue (move 0 task_id prechecking s)
            (λ _ s'. precheck session_id task_id (get s'.task_specs task_id) s')
        else (err tool_error, s)

    unfoldable pub handle_start_task : (session_id : String) (task_id : Uuid) → Handler Reply
    unfolding start_found
    handle_start_task session_id task_id s =
        start_found session_id task_id (get s.task_states task_id) s

  -- The completion; an exception of the callback is only logged.
  unfoldable pub finish_task :
      (session_id message : String) (task_id : Uuid) (task : TaskSpec) → Handler Reply
  unfolding write_transition complete_task
  finish_task session_id message task_id task s =
      continue
        (write_transition 1 task_id TaskStatus.completed
          (complete_task task_id task.name (some message) s))
        (λ _ s'. (
          ok completed,
          record s' {
            active_tasks = pop s'.active_tasks session_id;
            callbacks = s'.callbacks ++ called_back task.on_success task_id;
          },
        ))

  unfoldable pub judge_constraints :
      (session_id message : String) (task_id : Uuid) (task : TaskSpec)
      → Result (List CheckResult)
      → Handler Reply
  unfolding finish_task move
  judge_constraints session_id message task_id task (err raised) s = (err raised, s)
  judge_constraints session_id message task_id task (ok results) s =
      if all_passed results
      then finish_task session_id message task_id task s
      else continue (move 1 task_id postcheck_failed s)
          (λ _ s'. (ok (constraints_failed (failures results)), s'))

  module _ (run_checks : RunChecks) (check : Check) where
    unfoldable pub judge_postchecks :
        (session_id message : String) (task_id : Uuid) (task : TaskSpec)
        → Result (List CheckResult)
        → Handler Reply
    unfolding judge_constraints run_mechanical_constraints move
    judge_postchecks session_id message task_id task (err raised) s = (err raised, s)
    judge_postchecks session_id message task_id task (ok results) s =
        if all_passed results
        then judge_constraints session_id message task_id task
            (run_mechanical_constraints check task_id s) s
        else continue (move 1 task_id postcheck_failed s)
            (λ _ s'. (ok (postchecks_failed (failures results)), s'))

    module _ (scrub : String → String) (auto_commit : String → String → Result (Unit {0})) where
      -- From the assignment of the message on.
      unfoldable pub postcheck :
          (session_id message : String) (task_id : Uuid) (task : TaskSpec) → Handler Reply
      unfolding judge_postchecks run_postchecks
      postcheck session_id message task_id task s =
          let s' = record s {
            pending_end_task_message = put s.pending_end_task_message task_id message;
          } in
          continue (auto_commit session_id message, s')
            (λ _ u.
              judge_postchecks session_id message task_id task
                (run_postchecks run_checks task task_id u) u)

      unfoldable pub end_found :
          (session_id message : String) (task_id : Uuid) → Option TaskSpec → Handler Reply
      unfolding postcheck incomplete move
      end_found session_id message task_id none s = (err key_error, s)
      end_found session_id message task_id (some task) s =
          if is_nonempty (incomplete task_id s)
          then (err tool_error, s)
          else continue (move 0 task_id postchecking s)
              (λ _ s'. postcheck session_id (scrub message) task_id task s')

      unfoldable pub handle_end_task : (session_id message : String) → Handler Reply
      unfolding end_found check_active_task
      handle_end_task session_id message s =
          continue (check_active_task session_id s, s)
            (λ task_id s'. end_found session_id message task_id (get s'.task_specs task_id) s')
