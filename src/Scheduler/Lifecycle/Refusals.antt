-- ===== src/Scheduler/Lifecycle/Refusals.antt =====
-- Tasks that can no longer end (scheduler/src/orxtra/scheduler/_lifecycle_handlers.py).
use orxtra.Prelude.{
  ◌≡◌, refl, ◌∙◌, ap, ℕ, String, Bool, true, false, none, some, nat_eq, string_eq, contains,
  if◌then◌else◌, Result, ok, err, Error, tool_error, invalid_transition, Bool-cases, inl, inr,
  arith,
}
use orxtra.Prelude.Ids.{Uuid}
use orxtra.Prelude.Dict.{get, get-put}
use orxtra.Trace.Transitions.{TaskStatus, postchecking, postcheck_failed, validate_task_transition}
use orxtra.Trace.Rows.{Task}
use orxtra.Trace.Store.{Store}
use orxtra.Trace.Tasks.{transition_task}
use orxtra.Scheduler.Lifecycle.{TaskSpec, Scheduler, Handler, continue, children_of, RunChecks}
use orxtra.Scheduler.Lifecycle.Constraints.{Check, is_nonempty}
use orxtra.Scheduler.Lifecycle.Handlers.{
  Reply, incomplete, or_raise, check_active_task, write_transition, move, end_found,
  handle_end_task,
}
use orxtra.Scheduler.Lifecycle.Agreement.{Agrees, IsTraced, continue_ok}
use orxtra.Scheduler.Lifecycle.Branches.{incomplete_lem}

continue_err :
    {A B : Type 0} (m : Result A × Scheduler) (e : Error) (next : A → Handler B)
    → m.0 ≡ err e
    → continue m next ≡ (err e, m.1)
continue_err (ok a, s) e next h = cc
continue_err (err f, s) e next h = let q : f ≡ e = cc in rw q refl

pub then_branch : {A : Type 0} (b : Bool) (x y : A) → b ≡ true → (if b then x else y) ≡ x
then_branch true x y h = refl
then_branch false x y h = cc

pub else_branch : {A : Type 0} (b : Bool) (x y : A) → b ≡ false → (if b then x else y) ≡ y
else_branch true x y h = cc
else_branch false x y h = refl

pub is_active :
    (session : String) (i : Uuid) (s : Scheduler)
    → get s.active_tasks session ≡ some i
    → check_active_task session s ≡ ok i
unfolding check_active_task or_raise
is_active session i s h = ap or_raise h

module _ (fresh now : ℕ → ℕ) where
  transition_refused :
      (f n : ℕ) (i : Uuid) (principal : Uuid) (t : Store) (row : Task)
      → get t.tasks i ≡ some row
      → validate_task_transition row.status postchecking ≡ err invalid_transition
      → transition_task f n i postchecking none principal t ≡ (err invalid_transition, t)
  unfolding transition_task
  transition_refused f n i principal t row found v = rw (transition_task, found) (rw v refl)

  failed_not_checked :
      validate_task_transition postcheck_failed postchecking ≡ err invalid_transition
  unfolding validate_task_transition
  failed_not_checked = refl

  module _ (run_checks : RunChecks) (check : Check) (scrub : String → String)
      (auto_commit : String → String → Result (Unit {0})) (session message : String) where
    handle_end_task-eq-end_found :
        (i : Uuid) (task : TaskSpec) (s : Scheduler)
        → get s.active_tasks session ≡ some i
        → get s.task_specs i ≡ some task
        → handle_end_task fresh now run_checks check scrub auto_commit session message s
          ≡ end_found fresh now run_checks check scrub auto_commit session message i (some task) s
    unfolding handle_end_task
    handle_end_task-eq-end_found i task s at known =
        continue_ok (check_active_task session s, s) i _ (is_active session i s at)
        ∙ ap (λ o. end_found fresh now run_checks check scrub auto_commit session message i o s)
            known

    -- After failed postchecks `end_task` is refused by the trace: where the two agree, the task of
    -- the session is in the state after failed postchecks and its children are complete, the call
    -- raises the error of an invalid transition, the scheduler then counts the task as being
    -- checked, and the trace still as failed.
    pub handle_end_task_again :
        (i : Uuid) (task : TaskSpec) (s : Scheduler)
        → Agrees s
        → get s.active_tasks session ≡ some i
        → get s.task_specs i ≡ some task
        → get s.task_states i ≡ some postcheck_failed
        → is_nonempty (incomplete i s) ≡ false
        → ((handle_end_task fresh now run_checks check scrub auto_commit session message s).0
            ≡ err invalid_transition)
          × (get
                (handle_end_task fresh now run_checks check scrub auto_commit session message
                  s).1.task_states
                i
              ≡ some postchecking)
          × IsTraced i postcheck_failed
              (handle_end_task fresh now run_checks check scrub auto_commit session message s).1
    unfolding end_found move write_transition
    handle_end_task_again i task s agrees at known failed free =
        let (row, found, st) = agrees i postcheck_failed failed in
        let v : validate_task_transition row.status postchecking ≡ err invalid_transition =
          rw st failed_not_checked in
        let t = transition_refused (fresh 0) (now 0) i s.run_principal_id s.trace row found v in
        let u = (move fresh now 0 i postchecking s).1 in
        let e =
          handle_end_task-eq-end_found i task s at known
          ∙ else_branch (is_nonempty (incomplete i s)) _ _ free
          ∙ continue_err (move fresh now 0 i postchecking s) invalid_transition _
              (ap (λ (r : Result (Unit {0}) × Store). r.0) t) in
        (
          ap (λ (r : Result Reply × Scheduler). r.0) e,
          ap (λ (r : Result Reply × Scheduler). get r.1.task_states i) e
              ∙ ground (arith, get-put s.task_states i i postchecking, nat_eq.beq_iff i i),
          (
            row,
            ap (λ (r : Result Reply × Scheduler). get r.1.trace.tasks i) e
                ∙ ap (λ (r : Result (Unit {0}) × Store). get r.1.tasks i) t
                ∙ found,
            st,
          ),
        )

    -- A child that is not complete keeps its parent from ending.
    pub held_back :
        (i c : Uuid) (task : TaskSpec) (s : Scheduler)
        → get s.active_tasks session ≡ some i
        → get s.task_specs i ≡ some task
        → contains (children_of i s) c ≡ true
        → get s.task_states c ≡ some TaskStatus.created
        → handle_end_task fresh now run_checks check scrub auto_commit session message s
          ≡ (err tool_error, s)
    unfolding end_found
    held_back i c task s at known child state = elim (Bool-cases (is_nonempty (incomplete i s))) [
      | inl waits ↦
          handle_end_task-eq-end_found i task s at known
          ∙ then_branch (is_nonempty (incomplete i s)) _ _ waits
      | inr free ↦ let done = incomplete_lem i c s free child in absurd (cc)
    ]
