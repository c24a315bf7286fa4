-- ===== src/Scheduler/Lifecycle/Agreement/Calls.antt =====
-- Sequences of calls of the lifecycle handlers
-- (scheduler/src/orxtra/scheduler/_lifecycle_handlers.py).
use orxtra.Prelude.{
  ◌≡◌, refl, ◌∙◌, ℕ, String, Option, none, some, List, [], ◌∷◌, ◌==◌, nat_eq, string_eq, is_none,
  Result, ok, err, Bool-cases, inl, inr, arith,
}
use orxtra.Prelude.Ids.{Uuid, Decimal}
use orxtra.Prelude.Json.{Json, or_empty}
use orxtra.Prelude.Dict.{get, get-put}
use orxtra.Trace.Transitions.{TaskStatus, active}
use orxtra.Trace.Rows.{Task}
use orxtra.Trace.Tasks.{create_task}
use orxtra.Scheduler.Locks.{Claims, claim}
use orxtra.Scheduler.Lifecycle.{TaskSpec, Scheduler, children_of, RunChecks}
use orxtra.Scheduler.Lifecycle.Constraints.{Check, is_nonempty}
use orxtra.Scheduler.Lifecycle.Handlers.{check_active_task, handle_start_task, handle_end_task}
use orxtra.Scheduler.Lifecycle.Creation.{
  CreateTaskParams, plain_spec, agent_defaults, spec_of, register_task, read_only_names, advise,
  after_claim, claim_paths, enter, create_under, handle_create_task, handle_create_workflow,
  handle_create_wait_for, handle_await_task,
}
use orxtra.Scheduler.Lifecycle.Agreement.{Agrees, continue-keeps, choose-keeps}
use orxtra.Scheduler.Lifecycle.Agreement.Start.{handle_start_task-Agrees}
use orxtra.Scheduler.Lifecycle.Agreement.End.{handle_end_task-Agrees}

advise-Agrees : (parent : Uuid) (s : Scheduler) → Agrees s → Agrees (advise parent s)
unfolding advise
advise-Agrees parent s agrees =
    elim (Bool-cases (is_nonempty (read_only_names s (children_of parent s)))) [
      | inl found ↦ rw found agrees
      | inr nothing ↦ rw nothing agrees
    ]

after_claim-Agrees :
    (parent i : Uuid) (r : Result (Unit {0}) × Claims) (s : Scheduler)
    → Agrees s
    → Agrees (after_claim parent i r s).1
unfolding after_claim
after_claim-Agrees parent i (err raised, claims) s agrees = agrees
after_claim-Agrees parent i (ok tt, claims) s agrees =
    advise-Agrees parent (record s { file_lock_registry = claims }) agrees

claim_paths-Agrees :
    (parent i : Uuid) (o : Option (List String)) (s : Scheduler)
    → Agrees s
    → Agrees (claim_paths parent i o s).1
unfolding claim_paths
claim_paths-Agrees parent i none s agrees = advise-Agrees parent s agrees
claim_paths-Agrees parent i (some []) s agrees = advise-Agrees parent s agrees
claim_paths-Agrees parent i (some (p ∷ ps)) s agrees =
    after_claim-Agrees parent i (claim i (p ∷ ps) s.file_lock_registry) s agrees

module _ (fresh now : ℕ) where
  registered-Agrees :
      (parent : Uuid) (name task_type : String) (config : Option Json) (spec : TaskSpec)
      (s : Scheduler)
      → Agrees s
      → Agrees (register_task parent fresh spec (enter fresh now parent name task_type config s))
  unfolding register_task enter create_task
  registered-Agrees parent name task_type config spec s agrees j state h =
      let row : Task = record {
        id = fresh;
        run_id = s.run_id;
        parent_task_id = some parent;
        name = name;
        task_type = task_type;
        config = or_empty config;
        status = TaskStatus.created;
        created_at = now;
      } in
      elim (Bool-cases (fresh == j)) [
        | inl same ↦
            let e : TaskStatus.created ≡ state =
              ground (arith, get-put s.task_states fresh j TaskStatus.created) in
            (row, get-put s.trace.tasks fresh j row ∙ rw same refl, e)
        | inr other ↦
            let (was, found, q) =
              agrees j state (ground (arith, get-put s.task_states fresh j TaskStatus.created)) in
            (was, get-put s.trace.tasks fresh j row ∙ rw other found, q)
      ]

  create_under-Agrees :
      (params : CreateTaskParams) (parent : Uuid) (s : Scheduler)
      → Agrees s
      → Agrees (create_under fresh now params parent s).1
  unfolding create_under
  create_under-Agrees params parent s agrees =
      let spec = spec_of params (agent_defaults params.agent (get s.agents params.agent)) in
      choose-keeps Agrees s.budget_blocked _ _ (λ _. agrees)
        (λ _.
          claim_paths-Agrees parent fresh spec.write_paths
            (register_task parent fresh spec (enter fresh now parent params.name "agent" none s))
            (registered-Agrees parent params.name "agent" none spec s agrees))

  handle_create_task-Agrees :
      (session : String) (params : CreateTaskParams) (s : Scheduler)
      → Agrees s
      → Agrees (handle_create_task fresh now session params s).1
  unfolding handle_create_task
  handle_create_task-Agrees session params s agrees =
      continue-keeps Agrees (check_active_task session s, s) _ agrees
        (λ parent h. create_under-Agrees params parent s agrees)

  handle_create_workflow-Agrees :
      (session name : String) (config_data : Json) (postchecks : List Json)
      (budget : Option Decimal) (s : Scheduler)
      → Agrees s
      → Agrees (handle_create_workflow fresh now session name config_data postchecks budget s).1
  unfolding handle_create_workflow
  handle_create_workflow-Agrees session name config_data postchecks budget s agrees =
      let spec = record (plain_spec name) { postchecks = postchecks; budget = budget } in
      continue-keeps Agrees (check_active_task session s, s) _ agrees
        (λ parent h.
          choose-keeps Agrees s.budget_blocked _ _ (λ _. agrees)
            (λ _. registered-Agrees parent name "workflow" (some config_data) spec s agrees))

  handle_create_wait_for-Agrees :
      (session name event_name : String) (timeout : ℕ) (s : Scheduler)
      → Agrees s
      → Agrees (handle_create_wait_for fresh now session name event_name timeout s).1
  unfolding handle_create_wait_for
  handle_create_wait_for-Agrees session name event_name timeout s agrees =
      let spec = record (plain_spec name) { wait_for = some event_name; timeout = some timeout } in
      continue-keeps Agrees (check_active_task session s, s) _ agrees
        (λ parent h. registered-Agrees parent name "wait_for" none spec s agrees)

-- Any calls of the handlers, whatever they return or raise. A session ends only a task that is
-- active.
pub data Calls (s : Scheduler) : Scheduler → Type 0 where
  here : Calls s s
  started :
      {t : Scheduler}
      → Calls s t
      → (fresh now : ℕ → ℕ) (run_checks : RunChecks) (session : String) (i : Uuid)
      → Calls s (handle_start_task fresh now run_checks session i t).1
  ended :
      {t : Scheduler}
      → Calls s t
      → (fresh now : ℕ → ℕ) (run_checks : RunChecks) (check : Check) (scrub : String → String)
        (auto_commit : String → String → Result (Unit {0})) (session message : String)
      → ((i : Uuid) → get t.active_tasks session ≡ some i → get t.task_states i ≡ some active)
      → Calls s (handle_end_task fresh now run_checks check scrub auto_commit session message t).1
  created :
      {t : Scheduler}
      → Calls s t
      → (fresh now : ℕ) (session : String) (params : CreateTaskParams)
      → Calls s (handle_create_task fresh now session params t).1
  planned :
      {t : Scheduler}
      → Calls s t
      → (fresh now : ℕ) (session name : String) (config_data : Json) (postchecks : List Json)
        (budget : Option Decimal)
      → Calls s (handle_create_workflow fresh now session name config_data postchecks budget t).1
  waits :
      {t : Scheduler}
      → Calls s t
      → (fresh now : ℕ) (session name event_name : String) (timeout : ℕ)
      → Calls s (handle_create_wait_for fresh now session name event_name timeout t).1
  awaited :
      {t : Scheduler}
      → Calls s t
      → (session : String) (i : Uuid) → Calls s (handle_await_task session i t).1

handle_await_task-Agrees :
    (session : String) (i : Uuid) (s : Scheduler)
    → Agrees s
    → Agrees (handle_await_task session i s).1
unfolding handle_await_task
handle_await_task-Agrees session i s agrees =
    choose-keeps Agrees (is_none (get s.task_states i)) _ _ (λ _. agrees) (λ _. agrees)

-- Where each task that the scheduler knows has the same state in the trace, this holds after any
-- calls of the lifecycle handlers, those that raise included, as long as a session ends a task only
-- in the active state.
pub Calls-Agrees : {s t : Scheduler} → Calls s t → Agrees s → Agrees t
Calls-Agrees here h = h
Calls-Agrees (started {t} r fresh now run_checks session i) h =
    handle_start_task-Agrees fresh now run_checks session i t (Calls-Agrees r h)
Calls-Agrees (ended {t} r fresh now run_checks check scrub commit session message on) h =
    handle_end_task-Agrees fresh now run_checks check scrub commit session message t
      (Calls-Agrees r h) on
Calls-Agrees (created {t} r fresh now session params) h =
    handle_create_task-Agrees fresh now session params t (Calls-Agrees r h)
Calls-Agrees (planned {t} r fresh now session name config_data postchecks budget) h =
    handle_create_workflow-Agrees fresh now session name config_data postchecks budget t
      (Calls-Agrees r h)
Calls-Agrees (waits {t} r fresh now session name event_name timeout) h =
    handle_create_wait_for-Agrees fresh now session name event_name timeout t (Calls-Agrees r h)
Calls-Agrees (awaited {t} r session i) h = handle_await_task-Agrees session i t (Calls-Agrees r h)
