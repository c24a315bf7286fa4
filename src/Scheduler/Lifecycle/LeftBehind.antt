-- ===== src/Scheduler/Lifecycle/LeftBehind.antt =====
-- A task whose creation was refused for its write paths
-- (scheduler/src/orxtra/scheduler/_lifecycle_handlers.py).
use orxtra.Prelude.{
  ◌≡◌, refl, sym, ◌∙◌, ap, subst, ℕ, String, true, false, Option, none, some, List, [], ◌∷◌, ◌++◌,
  ◌==◌, nat_eq, string_eq, contains, Result, ok, err, tool_error, Bool-cases, inl, inr, arith,
}
use orxtra.Prelude.Ids.{Uuid}
use orxtra.Prelude.Dict.{get, get-put}
use orxtra.Prelude.Sets.{contains-append}
use orxtra.Trace.Transitions.{TaskStatus}
use orxtra.Scheduler.Locks.{Claims, claim}
use orxtra.Scheduler.Lifecycle.{TaskSpec, Scheduler, children_of, RunChecks}
use orxtra.Scheduler.Lifecycle.Constraints.{Check, is_nonempty}
use orxtra.Scheduler.Lifecycle.Handlers.{Reply, check_active_task, handle_end_task}
use orxtra.Scheduler.Lifecycle.Creation.{
  CreateTaskParams, agent_defaults, spec_of, register_task, read_only_names, advise, after_claim,
  claim_paths, enter, create_under, handle_create_task,
}
use orxtra.Scheduler.Lifecycle.Agreement.{continue_ok}
use orxtra.Scheduler.Lifecycle.Refusals.{else_branch, is_active, held_back}

-- The dictionaries that a refused claim leaves as they are.
record Kept (s t : Scheduler) : Type 0 where
  states : t.task_states ≡ s.task_states
  children : t.task_children ≡ s.task_children
  sessions : t.active_tasks ≡ s.active_tasks
  specs : t.task_specs ≡ s.task_specs

advise-Kept : (parent : Uuid) (s t : Scheduler) → Kept s t → Kept s (advise parent t)
unfolding advise
advise-Kept parent s t kept =
    elim (Bool-cases (is_nonempty (read_only_names t (children_of parent t)))) [
      | inl found ↦ rw found (record {
        states = kept.states;
        children = kept.children;
        sessions = kept.sessions;
        specs = kept.specs;
      })
      | inr nothing ↦ rw nothing kept
    ]

after_claim-Kept :
    (parent i : Uuid) (r : Result (Unit {0}) × Claims) (s : Scheduler)
    → Kept s (after_claim parent i r s).1
unfolding after_claim
after_claim-Kept parent i (err e, claims) s = record {
  states = refl;
  children = refl;
  sessions = refl;
  specs = refl;
}
after_claim-Kept parent i (ok _, claims) s =
    advise-Kept parent s (record s { file_lock_registry = claims })
      (record { states = refl; children = refl; sessions = refl; specs = refl })

claim_paths-Kept :
    (parent i : Uuid) (o : Option (List String)) (s : Scheduler)
    → Kept s (claim_paths parent i o s).1
unfolding claim_paths
claim_paths-Kept parent i none s =
    advise-Kept parent s s
      (record { states = refl; children = refl; sessions = refl; specs = refl })
claim_paths-Kept parent i (some []) s =
    advise-Kept parent s s
      (record { states = refl; children = refl; sessions = refl; specs = refl })
claim_paths-Kept parent i (some (p ∷ ps)) s =
    after_claim-Kept parent i (claim i (p ∷ ps) s.file_lock_registry) s

children_of-eq :
    (parent : Uuid) (t u : Scheduler)
    → u.task_children ≡ t.task_children
    → children_of parent u ≡ children_of parent t
unfolding children_of
children_of-eq parent t u e = ap (λ d. children_of parent (record t { task_children = d })) e

register_task-child :
    (parent fresh : Uuid) (spec : TaskSpec) (s : Scheduler)
    → contains (children_of parent (register_task parent fresh spec s)) fresh ≡ true
unfolding children_of register_task
register_task-child parent fresh spec s =
    let xs = children_of parent s in
    let here : contains (xs ++ fresh ∷ []) fresh ≡ true =
      ground (arith, contains-append xs (fresh ∷ []) fresh, nat_eq.beq_iff fresh fresh) in
    ground (
      arith,
      get-put s.task_children parent parent (xs ++ fresh ∷ []),
      nat_eq.beq_iff parent parent,
    )

-- A task whose creation is refused for its write paths stays behind: where the session has an active
-- task, the budget does not block and the minted id is not that task's, an exception of
-- `create_task` leaves the new task created and a child of the active one, and every `end_task` of
-- the session then is refused and changes nothing.
pub handle_create_task_left_behind :
    (fresh now : ℕ) (session : String) (params : CreateTaskParams) (parent : Uuid) (task : TaskSpec)
    (s u : Scheduler) (ids times : ℕ → ℕ) (run_checks : RunChecks) (check : Check)
    (scrub : String → String) (auto_commit : String → String → Result (Unit {0})) (message : String)
    → get s.active_tasks session ≡ some parent
    → get s.task_specs parent ≡ some task
    → s.budget_blocked ≡ false
    → (fresh == parent) ≡ false
    → handle_create_task fresh now session params s ≡ (err tool_error, u)
    → (get u.task_states fresh ≡ some TaskStatus.created)
      × (contains (children_of parent u) fresh ≡ true)
      × (handle_end_task ids times run_checks check scrub auto_commit session message u
          ≡ (err tool_error, u))
unfolding handle_create_task create_under register_task enter
handle_create_task_left_behind fresh now session params parent task s u ids times run_checks check
      scrub auto_commit message at known free new h =
    let spec = spec_of params (agent_defaults params.agent (get s.agents params.agent)) in
    let entered = enter fresh now parent params.name "agent" none s in
    let t = register_task parent fresh spec entered in
    let e =
      sym (ap (λ (r : Result Reply × Scheduler). r.1) h)
      ∙ ap (λ (r : Result Reply × Scheduler). r.1)
          (continue_ok (check_active_task session s, s) parent _ (is_active session parent s at)
            ∙ else_branch s.budget_blocked _ _ free) in
    let k : Kept t u = subst (Kept t) (sym e) (claim_paths-Kept parent fresh spec.write_paths t) in
    let state : get u.task_states fresh ≡ some TaskStatus.created =
      ap (λ d. get d fresh) k.states
      ∙ ground (
        arith,
        get-put s.task_states fresh fresh TaskStatus.created,
        nat_eq.beq_iff fresh fresh,
      ) in
    let child : contains (children_of parent u) fresh ≡ true =
      ap (λ xs. contains xs fresh) (children_of-eq parent t u k.children)
      ∙ register_task-child parent fresh spec entered in
    (
      state,
      child,
      held_back ids times run_checks check scrub auto_commit session message parent fresh task u
          (ap (λ d. get d session) k.sessions ∙ at)
          (ap (λ d. get d parent) k.specs
            ∙ get-put s.task_specs fresh parent spec
            ∙ else_branch (fresh == parent) _ _ new
            ∙ known)
          child state,
    )
