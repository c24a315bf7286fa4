-- ===== src/Scheduler/Lifecycle/Agreement.antt =====
-- The scheduler's view of its tasks and the trace
-- (scheduler/src/orxtra/scheduler/_lifecycle_handlers.py).
pub mod Start
pub mod End
pub mod Calls
use orxtra.Prelude.{
  ◌≡◌, refl, sym, ◌∙◌, ap, subst, ℕ, String, Bool, true, false, Option, none, some, List, [], ◌∷◌,
  ◌==◌, nat_eq, string_eq, if◌then◌else◌, Result, ok, err, Bool-cases, Option-cases, inl, inr,
  arith,
}
use orxtra.Prelude.Ids.{Uuid}
use orxtra.Prelude.Dict.{get, put, get-put}
use orxtra.Trace.Transitions.{
  TaskStatus, prechecking, active, postchecking, precheck_failed, postcheck_failed, task_status_eq,
  validate_task_transition,
}
use orxtra.Trace.Transitions.Relation.{
  TaskStep, precheck_passed, precheck_fails, finish, postcheck_passed, postcheck_fails,
  validate_task_transition-iff-TaskStep,
}
use orxtra.Trace.Rows.{Task}
use orxtra.Trace.Store.{Store}
use orxtra.Trace.Tasks.{apply_transition, transition_task}
use orxtra.Scheduler.Lifecycle.{
  TaskSpec, Scheduler, Handler, continue, complete_task, CheckResult, all_passed, RunChecks,
  run_prechecks, run_postchecks,
}
use orxtra.Scheduler.Lifecycle.Constraints.{Check, run_mechanical_constraints, is_nonempty}
use orxtra.Scheduler.Lifecycle.Handlers.{
  Reply, incomplete, or_raise, check_active_task, write_transition, move, judge_prechecks, precheck,
  start_found, handle_start_task, finish_task, judge_constraints, judge_postchecks, postcheck,
  end_found, handle_end_task,
}

-- What the trace stores on a task.
abbrev pub IsTraced : Uuid → TaskStatus → Scheduler → Type 0
IsTraced i state s = (row : Task) × (get s.trace.tasks i ≡ some row) × (row.status ≡ state)

-- Each task that the scheduler knows has the same state in the trace.
abbrev pub Agrees : Scheduler → Type 0
Agrees s = (i : Uuid) (state : TaskStatus) → get s.task_states i ≡ some state → IsTraced i state s

pub continue_ok :
    {A B : Type 0} (m : Result A × Scheduler) (a : A) (next : A → Handler B)
    → m.0 ≡ ok a
    → continue m next ≡ next a m.1
continue_ok (ok b, s) a next h = let e : b ≡ a = cc in rw e refl
continue_ok (err raised, s) a next h = cc

module _ (fresh now : ℕ → ℕ) where
  transition_accepted :
      (f n : ℕ) (i : Uuid) (new : TaskStatus) (principal : Uuid) (t : Store) (row : Task)
      → get t.tasks i ≡ some row
      → validate_task_transition row.status new ≡ ok tt
      → transition_task f n i new none principal t
        ≡ apply_transition f n row i new none principal (ok tt) t
  unfolding transition_task
  transition_accepted f n i new principal t row found v = rw (transition_task, found) (rw v refl)

  -- A transition that the trace accepts.
  pub write_accepted :
      (k : ℕ) (i : Uuid) (old new : TaskStatus) (s : Scheduler)
      → IsTraced i old s
      → TaskStep old new
      → ((write_transition fresh now k i new s).0 ≡ ok tt)
        × (row : Task) × ((j : Uuid)
            → get (write_transition fresh now k i new s).1.trace.tasks j
              ≡ (if i == j then some (record row { status = new }) else get s.trace.tasks j))
  unfolding write_transition
  write_accepted k i old new s (row, found, same) step =
      let v : validate_task_transition row.status new ≡ ok tt =
        rw same ((validate_task_transition-iff-TaskStep old new).1 step) in
      let e = transition_accepted (fresh k) (now k) i new s.run_principal_id s.trace row found v in
      (
        ap (λ (r : Result (Unit {0}) × Store). r.0) e,
        row,
        λ j.
            ap (λ (r : Result (Unit {0}) × Store). get r.1.tasks j) e
            ∙ get-put s.trace.tasks i j (record row { status = new }),
      )

  -- With the trace, the states that were set before it agree.
  pub write-Agrees :
      (k : ℕ) (i : Uuid) (old new : TaskStatus) (s t : Scheduler)
      → Agrees s
      → get s.task_states i ≡ some old
      → TaskStep old new
      → t.trace ≡ s.trace
      → t.task_states ≡ put s.task_states i new
      → ((write_transition fresh now k i new t).0 ≡ ok tt)
        × Agrees (write_transition fresh now k i new t).1
  unfolding write_transition
  write-Agrees k i old new s t agrees at step same states =
      let (row, found, st) = agrees i old at in
      let here : IsTraced i old t = (row, ap (λ (u : _). get u.tasks i) same ∙ found, st) in
      let (accepted, row', tasks) = write_accepted k i old new t here step in
      (
        accepted,
        λ j state h. elim (Bool-cases (i == j)) [
          | inl at_i ↦
              let e : new ≡ state = ground (arith, get-put s.task_states i j new) in
              (record row' { status = new }, tasks j ∙ rw at_i refl, e)
          | inr other ↦
              let was : get s.task_states j ≡ some state =
                ground (arith, get-put s.task_states i j new) in
              let (r, f, q) = agrees j state was in
              (r, tasks j ∙ rw other (ap (λ (u : _). get u.tasks j) same ∙ f), q)
        ],
      )

-- The two agree, and a task is in the given state.
abbrev pub Knows : Uuid → TaskStatus → Scheduler → Type 0
Knows i state s = Agrees s × (get s.task_states i ≡ some state)

pub continue-keeps :
    {A B : Type 0} (P : Scheduler → Type 0) (m : Result A × Scheduler) (next : A → Handler B)
    → P m.1
    → ((a : A) → m.0 ≡ ok a → P (next a m.1).1)
    → P (continue m next).1
continue-keeps P (err raised, s) next h k = h
continue-keeps P (ok a, s) next h k = k a refl

pub choose-keeps :
    {A : Type 0} (P : Scheduler → Type 0) (b : Bool) (x y : Result A × Scheduler)
    → (b ≡ true → P x.1)
    → (b ≡ false → P y.1)
    → P (if b then x else y).1
choose-keeps P true x y h k = h refl
choose-keeps P false x y h k = k refl

or_raise_lem : (o : Option Uuid) (i : Uuid) → or_raise o ≡ ok i → o ≡ some i
unfolding or_raise
or_raise_lem none i h = cc
or_raise_lem (some j) i h = cc

pub active_task_lem :
    (session : String) (s : Scheduler) (i : Uuid)
    → check_active_task session s ≡ ok i
    → get s.active_tasks session ≡ some i
unfolding check_active_task
active_task_lem session s i h = or_raise_lem (get s.active_tasks session) i h

module _ (fresh now : ℕ → ℕ) where
  pub move-Knows :
      (k : ℕ) (i : Uuid) (old new : TaskStatus) (s : Scheduler)
      → Knows i old s
      → TaskStep old new
      → Knows i new (move fresh now k i new s).1
  unfolding move write_transition
  move-Knows k i old new s (agrees, at) step =
      let t : Scheduler = record s { task_states = put s.task_states i new } in
      (
        (write-Agrees fresh now k i old new s t agrees at step refl refl).1,
        ground (arith, get-put s.task_states i i new, nat_eq.beq_iff i i),
      )
