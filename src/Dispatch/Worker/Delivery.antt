-- ===== src/Dispatch/Worker/Delivery.antt =====
-- Lemmas on the delivery of one event to one action
-- (dispatch/src/orxtra/dispatch/_dispatch_worker.py).
use orxtra.Prelude.{
  ℕ, ◌+◌, ◌≤◌, ◌≡◌, refl, Bool, true, false, ◌&&◌, ◌||◌, Option, none, some, List, [], ◌∷◌, map,
  arith, ◌==◌, nat_eq, if◌then◌else◌, Bool-cases, subst, ap, inl, inr, any, count, ltb, leb,
  is_none,
}
use orxtra.Prelude.Ids.{Uuid}
use orxtra.Prelude.Dict.{pop}
use orxtra.Dispatch.Backend.{
  AccumulatorConfig, AccumulatorEntry, Backend, Event, Subscription, SubscriptionAction,
  claim_batch, confirm_batch, is_pair, is_action_completed, record_completion, buffer_event,
  pending_count, discard,
}
use orxtra.Dispatch.Worker.{
  Execution, Env, Worker, execute_batch, flush_action, buffer_or_flush, deliver, claim_limit,
}

-- Whether an execution is an immediate one of the action for the event.
abbrev pub is_immediate : (event_id action_id : Uuid) → Execution → Bool
is_immediate event_id action_id (Execution.immediate sub_action event owner) =
    event.id == event_id && sub_action.id == action_id
is_immediate event_id action_id (Execution.flushed sub_action batch owner) = false

abbrev pub runs : (event_id action_id : Uuid) → Worker → ℕ
runs event_id action_id w = count (is_immediate event_id action_id) w.executions

-- Two states agree on the completions, the actions and the immediate executions.
abbrev pub Agrees : Worker → Worker → Type 0
Agrees v w =
    (v.backend.completions ≡ w.backend.completions)
    × (v.backend.actions ≡ w.backend.actions)
    × ((event_id action_id : Uuid) → runs event_id action_id v ≡ runs event_id action_id w)

confirm_keeps :
    (ids : List Uuid) (b : Backend)
    → ((confirm_batch ids b).completions ≡ b.completions)
      × ((confirm_batch ids b).actions ≡ b.actions)
unfolding confirm_batch
confirm_keeps [] b = (refl, refl)
confirm_keeps (i ∷ ids) b =
    confirm_keeps ids
      (record b { accumulator = pop b.accumulator i; claimed = discard i b.claimed })

execute_batch-Agrees :
    (env : Env) (a : SubscriptionAction) (owner : Uuid) (es : List AccumulatorEntry) (w : Worker)
    → Agrees (execute_batch env a owner es w) w
unfolding execute_batch
execute_batch-Agrees env a owner [] w = (refl, refl, λ i j. refl)
execute_batch-Agrees env a owner (e ∷ es) w =
    elim (Bool-cases (env.succeeds w.executions (Execution.flushed a (e ∷ es) owner))) [
      | inl fine ↦
          let kept = confirm_keeps (map (λ (x : AccumulatorEntry). x.id) (e ∷ es)) w.backend in
          rw fine (kept.0, kept.1, λ i j. omega arith)
      | inr raised ↦ rw raised (refl, refl, λ i j. omega arith)
    ]

flush_action-Agrees :
    (env : Env) (a : SubscriptionAction) (owner : Uuid) (w : Worker)
    → Agrees (flush_action env a owner w) w
unfolding flush_action claim_batch
flush_action-Agrees env a owner w =
    let claim = claim_batch a.id claim_limit w.backend in
    execute_batch-Agrees env a owner claim.0 (record w { backend = claim.1 })

buffer_or_flush-Agrees :
    (env : Env) (a : SubscriptionAction) (config : AccumulatorConfig) (event_id owner : Uuid)
    (w : Worker)
    → Agrees (buffer_or_flush env a config event_id owner w) w
unfolding buffer_or_flush buffer_event
buffer_or_flush-Agrees env a config event_id owner w =
    let entry : AccumulatorEntry = record {
      id = env.uuid7 w.buffered;
      subscription_action_id = a.id;
      event_id = event_id;
      created_at = env.now w.buffered;
    } in
    let stored = record w {
      backend = (buffer_event entry w.backend).1;
      buffered = w.buffered + 1;
    } in
    elim (Bool-cases
      (ltb 0 config.threshold && leb config.threshold (pending_count a.id stored.backend))) [
        | inl full ↦ rw full (flush_action-Agrees env a owner stored)
        | inr room ↦ rw room elim (Bool-cases (ltb 0 config.flush_interval_s)) [
          | inl later ↦ rw later (refl, refl, λ i j. refl)
          | inr never ↦ rw never (refl, refl, λ i j. refl)
        ]
      ]

pub pair-eq : (e a i j : Uuid) → is_pair i j (e, a) ≡ true → (e ≡ i) × (a ≡ j)
pair-eq e a i j h = (ground arith, ground arith)

-- Recording a completion adds that pair and takes none away.
pub record_completion-eq :
    (e a i j : Uuid) (b : Backend)
    → is_action_completed i j (record_completion e a b)
      ≡ (is_pair i j (e, a) || is_action_completed i j b)
unfolding is_action_completed record_completion
record_completion-eq e a i j b = elim (Bool-cases (any (is_pair e a) b.completions)) [
  | inl already ↦ rw already (elim (Bool-cases (is_pair i j (e, a))) [
    | inl same ↦
        let pair = pair-eq e a i j same in
        rw same (
          subst (λ x. any (is_pair x j) b.completions ≡ true) pair.0
            (subst (λ y. any (is_pair e y) b.completions ≡ true) pair.1 already))
    | inr differ ↦ rw differ refl
  ])
  | inr fresh ↦ rw fresh refl
]

pub deliver_keeps :
    (env : Env) (sub : Subscription) (event : Event) (a : SubscriptionAction)
    (config : Option AccumulatorConfig) (w : Worker)
    → ((deliver env sub event a config w).backend.completions ≡ w.backend.completions)
      × ((deliver env sub event a config w).backend.actions ≡ w.backend.actions)
unfolding deliver
deliver_keeps env sub event a none w = (refl, refl)
deliver_keeps env sub event a (some config) w =
    let agrees = buffer_or_flush-Agrees env a config event.id sub.principal_id w in
    (agrees.0, agrees.1)

pub deliver_runs :
    (env : Env) (sub : Subscription) (event : Event) (a : SubscriptionAction)
    (config : Option AccumulatorConfig) (w : Worker) (i j : Uuid)
    → runs i j (deliver env sub event a config w)
      ≤ (if is_pair i j (event.id, a.id) then 1 else 0) + runs i j w
unfolding deliver
deliver_runs env sub event a none w i j = omega arith
deliver_runs env sub event a (some config) w i j =
    omega (arith, (buffer_or_flush-Agrees env a config event.id sub.principal_id w).2 i j)

pub deliver_runs_more :
    (env : Env) (sub : Subscription) (event : Event) (a : SubscriptionAction)
    (config : Option AccumulatorConfig) (w : Worker) (i j : Uuid)
    → runs i j w ≤ runs i j (deliver env sub event a config w)
unfolding deliver
deliver_runs_more env sub event a none w i j = omega arith
deliver_runs_more env sub event a (some config) w i j =
    omega (arith, (buffer_or_flush-Agrees env a config event.id sub.principal_id w).2 i j)

pub deliver_ran :
    (env : Env) (sub : Subscription) (event : Event) (a : SubscriptionAction)
    (config : Option AccumulatorConfig) (w : Worker)
    → is_none config ≡ true
    → 1 ≤ runs event.id a.id (deliver env sub event a config w)
unfolding deliver
deliver_ran env sub event a none w h =
    ground (arith, nat_eq.beq_iff event.id event.id, nat_eq.beq_iff a.id a.id)
deliver_ran env sub event a (some config) w h = cc

pub completed-eq :
    (i j : Uuid) (b b' : Backend)
    → b.completions ≡ b'.completions
    → is_action_completed i j b ≡ is_action_completed i j b'
unfolding is_action_completed
completed-eq i j b b' same = ap (any (is_pair i j)) same
