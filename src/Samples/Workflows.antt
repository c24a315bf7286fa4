-- ===== src/Samples/Workflows.antt =====
-- The lifecycle handlers on a workflow with one task.
use orxtra.Prelude.{
  ◌≡◌, refl, sym, ◌∙◌, subst, ℕ, String, Bool, true, false, none, some, [], ◌∷◌, ◌==◌, nat_eq,
  string_eq, contains, Result, ok, err, tool_error, invalid_transition, Bool-cases, inl, inr, arith,
}
use orxtra.Prelude.Ids.{Uuid}
use orxtra.Prelude.Json.{text}
use orxtra.Prelude.Dict.{get, put}
use orxtra.Trace.Transitions.{
  TaskStatus, active, postchecking, postcheck_failed, validate_task_transition,
}
use orxtra.Trace.Store.{empty_store}
use orxtra.Scheduler.Locks.{paths_overlap}
use orxtra.Trace.Tasks.{create_task, transition_task}
use orxtra.Scheduler.Lifecycle.{TaskSpec, Scheduler, children_of, RunChecks}
use orxtra.Scheduler.Lifecycle.Constraints.{Check}
use orxtra.Scheduler.Lifecycle.Handlers.{Reply, handle_start_task, handle_end_task}
use orxtra.Scheduler.Lifecycle.Creation.{CreateTaskParams, plain_spec, handle_create_task}
use orxtra.Scheduler.Lifecycle.Agreement.{Agrees, IsTraced}
use orxtra.Scheduler.Lifecycle.Agreement.Calls.{Calls, here, started, ended, Calls-Agrees}
use orxtra.Scheduler.Lifecycle.Completion.{Earned, Done, handle_end_task-completed}
use orxtra.Scheduler.Lifecycle.Refusals.{handle_end_task_again}
use orxtra.Scheduler.Lifecycle.LeftBehind.{handle_create_task_left_behind}

abbrev build : TaskSpec
build = record (plain_spec "build") { postchecks = text "make test" ∷ [] }

abbrev fresh : Scheduler
fresh = record {
  run_id = 1;
  run_principal_id = 2;
  agents = [];
  mechanical_constraints = ("no new files", "no_new_dependencies") ∷ [];
  task_states = (5, TaskStatus.created) ∷ [];
  task_specs = (5, build) ∷ [];
  task_parents = (5, none) ∷ [];
  task_children = [];
  task_costs = (5, 0) ∷ [];
  task_outputs = [];
  task_structured_outputs = [];
  task_results_meta = [];
  active_tasks = [];
  pending_end_task_message = [];
  pending_await = [];
  pending_advisories = [];
  file_lock_registry = (9, "src" ∷ []) ∷ [];
  budget_blocked = false;
  callbacks = [];
  trace = (create_task 5 0 1 none "build" "agent" none empty_store).1;
}

abbrev ids : ℕ → ℕ
ids k = k

abbrev checks_that : Bool → RunChecks
checks_that passed checks context stage = ok (record { passed = passed; message = "" } ∷ [])

abbrev check : Check
check kind task_id s = ok (record { passed = true; message = "" })

abbrev keep : String → String
keep s = s

abbrev commit : String → String → Result (Unit {0})
commit session message = ok tt

abbrev running : Scheduler
running = (handle_start_task ids ids (checks_that true) "s" 5 fresh).1

abbrev ended_with : Bool → Result Reply × Scheduler
ended_with passed =
    handle_end_task ids ids (checks_that passed) check keep commit "s" "done" running

same_of : {A : Type 0} (a b : A) → some a ≡ some b → a ≡ b
same_of a b h = cc

fresh-IsTraced : IsTraced 5 TaskStatus.created fresh
unfolding get create_task put
fresh-IsTraced = (_, refl, refl)

fresh-Agrees : Agrees fresh
unfolding get
fresh-Agrees i state h = elim (Bool-cases (5 == i)) [
  | inl same ↦
      let e : TaskStatus.created ≡ state = ground arith in
      subst (λ st. IsTraced i st fresh) e
        (subst (λ j. IsTraced j TaskStatus.created fresh) ((nat_eq.beq_iff 5 i).0 same)
          fresh-IsTraced)
  | inr other ↦ ground arith
]

in_session : get running.active_tasks "s" ≡ some 5
unfolding handle_start_task get put create_task transition_task validate_task_transition
in_session = refl

is_running : get running.task_states 5 ≡ some active
unfolding handle_start_task get put create_task transition_task validate_task_transition
is_running = refl

running_active :
    (i : Uuid) → get running.active_tasks "s" ≡ some i → get running.task_states i ≡ some active
running_active i h =
    subst (λ j. get running.task_states j ≡ some active) (same_of 5 i (sym in_session ∙ h))
      is_running

after_failure : Calls fresh (ended_with false).1
after_failure =
    ended (started here ids ids (checks_that true) "s" 5) ids ids (checks_that false) check keep
      commit "s" "done" running_active

Calls-Agrees_example : Agrees (ended_with false).1
Calls-Agrees_example = Calls-Agrees after_failure fresh-Agrees

handle_end_task-completed_example :
    (i : Uuid) × (task : TaskSpec) × Earned
      (checks_that true)
      check
      keep
      commit
      "s"
      "done"
      i
      task
      running
    × Done "s" i (ended_with true).1
unfolding handle_end_task handle_start_task get put create_task transition_task
    validate_task_transition
handle_end_task-completed_example =
    handle_end_task-completed ids ids (checks_that true) check keep commit "s" "done" running
      (ended_with true).1 refl

abbrev failed : Scheduler
failed = (ended_with false).1

handle_end_task_again_example :
    ((handle_end_task ids ids (checks_that true) check keep commit "s" "done" failed).0
      ≡ err invalid_transition)
    × (get
          (handle_end_task ids ids
            (checks_that true)
            check
            keep
            commit
            "s"
            "done"
            failed).1.task_states
          5
        ≡ some postchecking)
    × IsTraced 5 postcheck_failed
        (handle_end_task ids ids (checks_that true) check keep commit "s" "done" failed).1
unfolding handle_end_task handle_start_task get put create_task transition_task
    validate_task_transition
handle_end_task_again_example =
    handle_end_task_again ids ids (checks_that true) check keep commit "s" "done" 5 build failed
      (Calls-Agrees after_failure fresh-Agrees) refl refl refl refl

abbrev test_params : CreateTaskParams
test_params = record {
  name = "test";
  agent = "tester";
  task_prompt = "";
  prechecks = [];
  postchecks = [];
  timeout = 60;
  context_refinement = false;
  budget = none;
  write_paths = some ("src" ∷ []);
  category = none;
  retry = 0;
  retry_resume = none;
  retry_inject_failure = none;
}

abbrev refused : Scheduler
refused = (handle_create_task 6 0 "s" test_params running).1

handle_create_task_left_behind_example :
    (get refused.task_states 6 ≡ some TaskStatus.created)
    × (contains (children_of 5 refused) 6 ≡ true)
    × (handle_end_task ids ids (checks_that true) check keep commit "s" "done" refused
        ≡ (err tool_error, refused))
unfolding handle_create_task handle_start_task get put create_task transition_task
    validate_task_transition paths_overlap
handle_create_task_left_behind_example =
    handle_create_task_left_behind 6 0 "s" test_params 5 build running refused ids ids
      (checks_that true) check keep commit "done" refl refl refl refl refl
