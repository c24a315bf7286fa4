-- ===== src/Scheduler/Lifecycle/Agreement/End.antt =====
-- The end of a task (scheduler/src/orxtra/scheduler/_lifecycle_handlers.py).
use orxtra.Prelude.{
  ◌≡◌, refl, ℕ, String, Option, none, some, List, nat_eq, string_eq, Result, ok, err,
}
use orxtra.Prelude.Ids.{Uuid}
use orxtra.Prelude.Dict.{get, put}
use orxtra.Trace.Transitions.{TaskStatus, active, postchecking, postcheck_failed, task_status_eq}
use orxtra.Trace.Transitions.Relation.{finish, postcheck_passed, postcheck_fails}
use orxtra.Scheduler.Lifecycle.{
  TaskSpec, Scheduler, complete_task, CheckResult, all_passed, RunChecks, run_postchecks,
}
use orxtra.Scheduler.Lifecycle.Constraints.{Check, run_mechanical_constraints, is_nonempty}
use orxtra.Scheduler.Lifecycle.Handlers.{
  incomplete, check_active_task, write_transition, move, finish_task, judge_constraints,
  judge_postchecks, postcheck, end_found, handle_end_task,
}
use orxtra.Scheduler.Lifecycle.Agreement.{
  Agrees, Knows, continue-keeps, choose-keeps, active_task_lem, write-Agrees, move-Knows,
}

module _ (fresh now : ℕ → ℕ) where
  finish_task-Agrees :
      (session message : String) (i : Uuid) (task : TaskSpec) (s : Scheduler)
      → Knows i postchecking s
      → Agrees (finish_task fresh now session message i task s).1
  unfolding finish_task complete_task
  finish_task-Agrees session message i task s (agrees, at) =
      let t = complete_task i task.name (some message) s in
      let (accepted, after) =
        write-Agrees fresh now 1 i postchecking TaskStatus.completed s t agrees at postcheck_passed
          refl refl in
      continue-keeps Agrees (write_transition fresh now 1 i TaskStatus.completed t) _ after
        (λ _ h. after)

  judge_constraints-Agrees :
      (session message : String) (i : Uuid) (task : TaskSpec) (r : Result (List CheckResult))
      (s : Scheduler)
      → Knows i postchecking s
      → Agrees (judge_constraints fresh now session message i task r s).1
  unfolding judge_constraints
  judge_constraints-Agrees session message i task (err raised) s knows = knows.0
  judge_constraints-Agrees session message i task (ok results) s knows =
      let after = move-Knows fresh now 1 i postchecking postcheck_failed s knows postcheck_fails in
      choose-keeps Agrees (all_passed results) _ _
        (λ _. finish_task-Agrees session message i task s knows)
        (λ _.
          continue-keeps Agrees (move fresh now 1 i postcheck_failed s) _ after.0 (λ _ h. after.0))

  module _ (run_checks : RunChecks) (check : Check) where
    judge_postchecks-Agrees :
        (session message : String) (i : Uuid) (task : TaskSpec) (r : Result (List CheckResult))
        (s : Scheduler)
        → Knows i postchecking s
        → Agrees (judge_postchecks fresh now run_checks check session message i task r s).1
    unfolding judge_postchecks
    judge_postchecks-Agrees session message i task (err raised) s knows = knows.0
    judge_postchecks-Agrees session message i task (ok results) s knows =
        let after =
          move-Knows fresh now 1 i postchecking postcheck_failed s knows postcheck_fails in
        choose-keeps Agrees (all_passed results) _ _
          (λ _.
            judge_constraints-Agrees session message i task (run_mechanical_constraints check i s) s
              knows)
          (λ _.
            continue-keeps Agrees (move fresh now 1 i postcheck_failed s) _ after.0
              (λ _ h. after.0))

    module _ (scrub : String → String) (auto_commit : String → String → Result (Unit {0})) where
      postcheck-Agrees :
          (session message : String) (i : Uuid) (task : TaskSpec) (s : Scheduler)
          → Knows i postchecking s
          → Agrees
              (postcheck fresh now run_checks check scrub auto_commit session message i task s).1
      unfolding postcheck
      postcheck-Agrees session message i task s knows =
          let s' : Scheduler = record s {
            pending_end_task_message = put s.pending_end_task_message i message;
          } in
          continue-keeps Agrees (auto_commit session message, s') _ knows.0
            (λ _ h.
              judge_postchecks-Agrees session message i task (run_postchecks run_checks task i s')
                s' knows)

      end_found-Agrees :
          (session message : String) (i : Uuid) (o : Option TaskSpec) (s : Scheduler)
          → Knows i active s
          → Agrees (end_found fresh now run_checks check scrub auto_commit session message i o s).1
      unfolding end_found
      end_found-Agrees session message i none s knows = knows.0
      end_found-Agrees session message i (some task) s knows =
          let after = move-Knows fresh now 0 i active postchecking s knows finish in
          choose-keeps Agrees (is_nonempty (incomplete i s)) _ _ (λ _. knows.0)
            (λ _.
              continue-keeps Agrees (move fresh now 0 i postchecking s) _ after.0
                (λ _ h. postcheck-Agrees session (scrub message) i task _ after))

      pub handle_end_task-Agrees :
          (session message : String) (s : Scheduler)
          → Agrees s
          → ((i : Uuid) → get s.active_tasks session ≡ some i → get s.task_states i ≡ some active)
          → Agrees
              (handle_end_task fresh now run_checks check scrub auto_commit session message s).1
      unfolding handle_end_task
      handle_end_task-Agrees session message s agrees are_active =
          continue-keeps Agrees (check_active_task session s, s) _ agrees
            (λ i h.
              end_found-Agrees session message i (get s.task_specs i) s
                (agrees, are_active i (active_task_lem session s i h)))
