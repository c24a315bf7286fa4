-- ===== src/Scheduler/Lifecycle/Completion.antt =====
-- What a task has behind it when it completes
-- (scheduler/src/orxtra/scheduler/_lifecycle_handlers.py).
use orxtra.Prelude.{
  ◌≡◌, refl, ap, subst, ℕ, String, true, Option, none, some, List, nat_eq, string_eq, contains,
  Result, ok, err, key_error, tool_error, inl, inr, arith,
}
use orxtra.Prelude.Ids.{Uuid}
use orxtra.Prelude.Dict.{get, put, get-put, get-pop}
use orxtra.Trace.Transitions.{TaskStatus, postchecking, postcheck_failed, task_status_eq}
use orxtra.Scheduler.Locks.{release}
use orxtra.Scheduler.Lifecycle.{
  TaskSpec, Scheduler, continue, children_of, complete_task, CheckResult, all_passed, RunChecks,
  run_postchecks,
}
use orxtra.Scheduler.Lifecycle.Constraints.{Check, run_mechanical_constraints, is_nonempty}
use orxtra.Scheduler.Lifecycle.Handlers.{
  Reply, completed, incomplete, check_active_task, write_transition, move, finish_task,
  judge_constraints, judge_postchecks, postcheck, end_found, handle_end_task,
}
use orxtra.Scheduler.Lifecycle.Branches.{continue-eq-ok, choose-eq, incomplete_lem, write-IsTraced}
use orxtra.Scheduler.Lifecycle.Agreement.{IsTraced, active_task_lem}

-- What is left of a completed task: its state, in both places, and neither a lock nor a session.
pub record Done (session : String) (i : Uuid) (s : Scheduler) : Type 0 where
  pub traced : IsTraced i TaskStatus.completed s
  pub state : get s.task_states i ≡ some TaskStatus.completed
  pub inactive : get s.active_tasks session ≡ none
  pub unlocked : get s.file_lock_registry i ≡ none

abbrev pub Passes : Result (List CheckResult) → Type 0
Passes r = (results : List CheckResult) × (r ≡ ok results) × (all_passed results ≡ true)

-- The state in which the postchecks are run, as far as they read it.
abbrev pub with_message : (message : String) (i : Uuid) → Scheduler → Scheduler
with_message message i s = record s {
  pending_end_task_message = put s.pending_end_task_message i message;
}

module _ (run_checks : RunChecks) (check : Check) (scrub : String → String)
    (auto_commit : String → String → Result (Unit {0})) (session message : String) where
  -- What ending a task went through.
  pub record Earned (i : Uuid) (task : TaskSpec) (s : Scheduler) : Type 0 where
    pub active : get s.active_tasks session ≡ some i
    pub known : get s.task_specs i ≡ some task
    pub children :
        (c : Uuid)
        → contains (children_of i s) c ≡ true
        → get s.task_states c ≡ some TaskStatus.completed
    pub commit_returned : auto_commit session (scrub message) ≡ ok tt
    pub checked : Passes (run_postchecks run_checks task i (with_message (scrub message) i s))
    pub constrained : Passes (run_mechanical_constraints check i s)

module _ (fresh now : ℕ → ℕ) where
  finish_task-Done :
      (session message : String) (i : Uuid) (task : TaskSpec) (s u : Scheduler)
      → finish_task fresh now session message i task s ≡ (ok completed, u)
      → Done session i u
  unfolding finish_task complete_task release
  finish_task-Done session message i task s u h =
      let t : Scheduler = complete_task i task.name (some message) s in
      let (r, accepted, e) =
        continue-eq-ok (write_transition fresh now 1 i TaskStatus.completed t) _ completed u h in
      let traced = write-IsTraced fresh now 1 i TaskStatus.completed t accepted in
      subst (Done session i) (ap (λ (r : Result Reply × Scheduler). r.1) e) (record {
        traced = traced;
        state = ground (arith, get-put s.task_states i i TaskStatus.completed, nat_eq.beq_iff i i);
        inactive =
            ground
              (arith, get-pop s.active_tasks session session, string_eq.beq_iff session session);
        unlocked = ground (arith, get-pop s.file_lock_registry i i, nat_eq.beq_iff i i);
      })

  -- A handler that fails its task does not complete it.
  failed_not_completed :
      {A : Type 0} (m : Result A × Scheduler) (reply : Reply) (u : Scheduler)
      → continue m (λ _ s. (ok reply, s)) ≡ (ok completed, u)
      → reply ≡ completed
  failed_not_completed m reply u h =
      let (a, p, e) = continue-eq-ok m (λ _ s. (ok reply, s)) completed u h in
      let q : ok reply ≡ ok completed = ap (λ r. r.0) e in cc

  judge_constraints_lem :
      (session message : String) (i : Uuid) (task : TaskSpec) (r : Result (List CheckResult))
      (s u : Scheduler)
      → judge_constraints fresh now session message i task r s ≡ (ok completed, u)
      → Passes r × Done session i u
  unfolding judge_constraints
  judge_constraints_lem session message i task (err e) s u h =
      let differ : err e ≡ ok completed = ap (λ x. x.0) h in cc
  judge_constraints_lem session message i task (ok results) s u h =
      elim (choose-eq (all_passed results) _ _ _ h) [
        | inl (passes, e) ↦ ((results, refl, passes), finish_task-Done session message i task s u e)
        | inr (fails, e) ↦
            let q = failed_not_completed (move fresh now 1 i postcheck_failed s) _ u e in cc
      ]

  module _ (run_checks : RunChecks) (check : Check) where
    judge_postchecks_lem :
        (session message : String) (i : Uuid) (task : TaskSpec) (r : Result (List CheckResult))
        (s u : Scheduler)
        → judge_postchecks fresh now run_checks check session message i task r s ≡ (ok completed, u)
        → Passes r × Passes (run_mechanical_constraints check i s) × Done session i u
    unfolding judge_postchecks
    judge_postchecks_lem session message i task (err e) s u h =
        let differ : err e ≡ ok completed = ap (λ x. x.0) h in cc
    judge_postchecks_lem session message i task (ok results) s u h =
        elim (choose-eq (all_passed results) _ _ _ h) [
          | inl (passes, e) ↦
              let (constrained, done) =
                judge_constraints_lem session message i task (run_mechanical_constraints check i s)
                  s u e in
              ((results, refl, passes), constrained, done)
          | inr (fails, e) ↦
              let q = failed_not_completed (move fresh now 1 i postcheck_failed s) _ u e in cc
        ]

    module _ (scrub : String → String) (auto_commit : String → String → Result (Unit {0}))
        (session message : String) where
      end_found_lem :
          (i : Uuid) (o : Option TaskSpec) (s u : Scheduler)
          → get s.active_tasks session ≡ some i
          → get s.task_specs i ≡ o
          → end_found fresh now run_checks check scrub auto_commit session message i o s
            ≡ (ok completed, u)
          → (task : TaskSpec) × Earned run_checks check scrub auto_commit session message i task s
            × Done session i u
      unfolding end_found postcheck move write_transition run_postchecks run_mechanical_constraints
          children_of
      end_found_lem i none s u at known h =
          let differ : err key_error ≡ ok completed = ap (λ x. x.0) h in cc
      end_found_lem i (some task) s u at known h =
          elim (choose-eq (is_nonempty (incomplete i s)) _ _ _ h) [
            | inl (waits, e) ↦ let differ : err tool_error ≡ ok completed = ap (λ x. x.0) e in cc
            | inr (free, e) ↦
                let (a, went_on, rest) =
                  continue-eq-ok (move fresh now 0 i postchecking s) _ completed u e in
                let t : Scheduler =
                  with_message (scrub message) i (move fresh now 0 i postchecking s).1 in
                let (b, returned, last) =
                  continue-eq-ok (auto_commit session (scrub message), t) _ completed u rest in
                let (checked, constrained, done) =
                  judge_postchecks_lem session (scrub message) i task
                    (run_postchecks run_checks task i t) t u last in
                (
                  task,
                  record {
                    active = at;
                    known = known;
                    children = λ c k. incomplete_lem i c s free k;
                    commit_returned = returned;
                    checked = checked;
                    constrained = constrained;
                  },
                  done,
                )
          ]

      -- A task completes by `end_task` only if it is the active task of the session, all its
      -- children are complete, the automatic commit did not raise (whether it committed anything is
      -- not asked) and all postchecks and constraints passed. Then it is completed for the scheduler and in the trace, holds no file lock, and the session has
      -- no active task.
      pub handle_end_task-completed :
          (s u : Scheduler)
          → handle_end_task fresh now run_checks check scrub auto_commit session message s
            ≡ (ok completed, u)
          → (i : Uuid) × (task : TaskSpec) × Earned run_checks check scrub auto_commit session
              message i task s
            × Done session i u
      unfolding handle_end_task
      handle_end_task-completed s u h =
          let (i, found, rest) = continue-eq-ok (check_active_task session s, s) _ completed u h in
          let (task, earned, done) =
            end_found_lem i (get s.task_specs i) s u (active_task_lem session s i found) refl
              rest in
          (i, task, earned, done)
