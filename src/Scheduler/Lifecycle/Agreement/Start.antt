-- ===== src/Scheduler/Lifecycle/Agreement/Start.antt =====
-- The start of a task (scheduler/src/orxtra/scheduler/_lifecycle_handlers.py).
use orxtra.Prelude.{
  ◌≡◌, refl, ◌∙◌, ap, ℕ, String, Option, none, some, List, ◌==◌, nat_eq, string_eq, Result, ok, err,
}
use orxtra.Prelude.Ids.{Uuid}
use orxtra.Prelude.Dict.{get}
use orxtra.Trace.Transitions.{TaskStatus, prechecking, active, precheck_failed, task_status_eq}
use orxtra.Trace.Transitions.Relation.{TaskStep, precheck_passed, precheck_fails}
use orxtra.Scheduler.Lifecycle.{
  TaskSpec, Scheduler, CheckResult, all_passed, RunChecks, run_prechecks,
}
use orxtra.Scheduler.Lifecycle.Handlers.{
  move, judge_prechecks, precheck, start_found, handle_start_task,
}
use orxtra.Scheduler.Lifecycle.Agreement.{Agrees, Knows, continue-keeps, choose-keeps, move-Knows}

module _ (fresh now : ℕ → ℕ) where
  judge_prechecks-Agrees :
      (session : String) (i : Uuid) (r : Result (List CheckResult)) (s : Scheduler)
      → Knows i prechecking s
      → Agrees (judge_prechecks fresh now session i r s).1
  unfolding judge_prechecks
  judge_prechecks-Agrees session i (err raised) s knows = knows.0
  judge_prechecks-Agrees session i (ok results) s knows =
      let passes = move-Knows fresh now 1 i prechecking active s knows precheck_passed in
      let fails = move-Knows fresh now 1 i prechecking precheck_failed s knows precheck_fails in
      choose-keeps Agrees (all_passed results) _ _
        (λ _. continue-keeps Agrees (move fresh now 1 i active s) _ passes.0 (λ _ h. passes.0))
        (λ _.
          continue-keeps Agrees (move fresh now 1 i precheck_failed s) _ fails.0 (λ _ h. fails.0))

  module _ (run_checks : RunChecks) where
    precheck-Agrees :
        (session : String) (i : Uuid) (o : Option TaskSpec) (s : Scheduler)
        → Knows i prechecking s
        → Agrees (precheck fresh now run_checks session i o s).1
    unfolding precheck
    precheck-Agrees session i none s knows = knows.0
    precheck-Agrees session i (some task) s knows =
        judge_prechecks-Agrees session i (run_prechecks run_checks task i s) s knows

    start_found-Agrees :
        (session : String) (i : Uuid) (o : Option TaskStatus) (s : Scheduler)
        → Agrees s
        → get s.task_states i ≡ o
        → Agrees (start_found fresh now run_checks session i o s).1
    unfolding start_found
    start_found-Agrees session i none s agrees at = agrees
    start_found-Agrees session i (some state) s agrees at =
        choose-keeps Agrees (state == TaskStatus.created) _ _
          (λ fits.
            let e : state ≡ TaskStatus.created =
              (task_status_eq.beq_iff state TaskStatus.created).0 fits in
            let knows =
              move-Knows fresh now 0 i TaskStatus.created prechecking s (agrees, at ∙ ap some e)
                TaskStep.start in
            continue-keeps Agrees (move fresh now 0 i prechecking s) _ knows.0
              (λ _ h. precheck-Agrees session i _ _ knows))
          (λ other. agrees)

    pub handle_start_task-Agrees :
        (session : String) (i : Uuid) (s : Scheduler)
        → Agrees s
        → Agrees (handle_start_task fresh now run_checks session i s).1
    unfolding handle_start_task
    handle_start_task-Agrees session i s agrees =
        start_found-Agrees session i (get s.task_states i) s agrees refl
