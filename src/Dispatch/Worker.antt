-- ===== src/Dispatch/Worker.antt =====
-- `DispatchWorker` (dispatch/src/orxtra/dispatch/_dispatch_worker.py) on the in-memory backend. What
-- is not of this code is a field of `Env`: whether an action raises, which may depend on all the
-- executions before it, the resolver of source slugs, new ids, the clock, and the moment at which
-- another task calls `stop`.
pub mod Delivery
pub mod Once
pub mod Progress
pub mod Buffered
pub mod Gathered
pub mod Backed
pub mod Done
use orxtra.Prelude.{
  ℕ, zero, suc, ◌+◌, String, Bool, true, false, not, ◌&&◌, Option, none, some, List, [], ◌∷◌, map,
  ltb, leb, if◌then◌else◌,
}
use orxtra.Prelude.Ids.{Uuid, Time}
use orxtra.Dispatch.Backend.{
  AccumulatorConfig, AccumulatorEntry, Backend, Event, Subscription, SubscriptionAction,
  list_subscriptions, list_actions, buffer_event, claim_batch, confirm_batch, pending_count,
  get_cursor_position, advance_cursor, is_action_completed, record_completion, poll_events_since,
}
use orxtra.Dispatch.Matching.{match_subscription}

-- One call of `execute_action`, with the events that it is given and the owner to whom the events
-- that it fires are attributed.
pub data Execution : Type 0 where
  immediate : SubscriptionAction → Event → (owner_principal_id : Uuid) → Execution
  flushed : SubscriptionAction → List AccumulatorEntry → (owner_principal_id : Uuid) → Execution

pub record Env : Type 0 where
  pub succeeds : List Execution → Execution → Bool
  pub resolve_source_principals : List String → List Uuid
  pub uuid7 : ℕ → Uuid
  pub now : ℕ → Time
  pub is_stopped : ℕ → Bool
  pub cursor_name : String
  pub batch_size : ℕ

-- The backend, the calls of `execute_action`, the newest first, the flushes handed to the
-- `FlushScheduler`, and the number of entries buffered so far.
pub record Worker : Type 0 where
  pub backend : Backend
  pub executions : List Execution
  pub scheduled : List (ℕ × SubscriptionAction × Uuid)
  pub buffered : ℕ

-- The default `limit` of `claim_batch`.
abbrev pub claim_limit : ℕ
claim_limit = 100

-- `if not batch: return`, and else execute; a batch whose action raises is not confirmed.
unfoldable pub execute_batch :
    Env → SubscriptionAction → (owner : Uuid) → List AccumulatorEntry → Worker → Worker
execute_batch env sub_action owner [] w = w
execute_batch env sub_action owner (e ∷ es) w =
    let call = Execution.flushed sub_action (e ∷ es) owner in
    let ran = record w { executions = call ∷ w.executions } in
    if env.succeeds w.executions call
    then record ran {
      backend = confirm_batch (map (λ (x : AccumulatorEntry). x.id) (e ∷ es)) w.backend;
    }
    else ran

unfoldable pub flush_action : Env → SubscriptionAction → (owner : Uuid) → Worker → Worker
unfolding execute_batch
flush_action env sub_action owner w =
    let claim = claim_batch sub_action.id claim_limit w.backend in
    execute_batch env sub_action owner claim.0 (record w { backend = claim.1 })

unfoldable pub buffer_or_flush :
    Env → SubscriptionAction → AccumulatorConfig → (event_id owner : Uuid) → Worker → Worker
unfolding flush_action
buffer_or_flush env sub_action config event_id owner w =
    let entry : AccumulatorEntry = record {
      id = env.uuid7 w.buffered;
      subscription_action_id = sub_action.id;
      event_id = event_id;
      created_at = env.now w.buffered;
    } in
    let stored = record w {
      backend = (buffer_event entry w.backend).1;
      buffered = w.buffered + 1;
    } in
    if ltb 0 config.threshold && leb config.threshold (pending_count sub_action.id stored.backend)
    then flush_action env sub_action owner stored
    else if ltb 0 config.flush_interval_s
    then record stored { scheduled = (config.flush_interval_s, sub_action, owner) ∷ w.scheduled }
    else stored

-- An exception of the action is logged and goes no further.
unfoldable pub execute_action_immediate :
    SubscriptionAction → Event → (owner : Uuid) → Worker → Worker
execute_action_immediate sub_action event owner w = record w {
  executions = Execution.immediate sub_action event owner ∷ w.executions;
}

-- Buffered where the action has an accumulator, executed at once where it has none.
unfoldable pub deliver :
    Env → Subscription → Event → SubscriptionAction → Option AccumulatorConfig → Worker → Worker
unfolding execute_action_immediate
deliver env sub event sub_action none w =
    execute_action_immediate sub_action event sub.principal_id w
deliver env sub event sub_action (some config) w =
    buffer_or_flush env sub_action config event.id sub.principal_id w

-- The body of the loop over the actions of a subscription.
unfoldable pub process_action : Env → Subscription → Event → SubscriptionAction → Worker → Worker
unfolding deliver
process_action env sub event sub_action w =
    let delivered = deliver env sub event sub_action sub_action.accumulator_config w in
    if is_action_completed event.id sub_action.id w.backend
    then w
    else record delivered { backend = record_completion event.id sub_action.id delivered.backend }

unfoldable pub process_actions :
    Env → Subscription → Event → List SubscriptionAction → Worker → Worker
process_actions env sub event [] w = w
process_actions env sub event (a ∷ actions) w =
    process_actions env sub event actions (process_action env sub event a w)

abbrev pub matches : Env → Event → Subscription → Bool
matches env event sub =
    match_subscription event.event_type event.principal_id sub.predicate
      env.resolve_source_principals

unfoldable pub process_subscriptions : Env → Event → List Subscription → Worker → Worker
process_subscriptions env event [] w = w
process_subscriptions env event (sub ∷ subs) w =
    let acted = process_actions env sub event (list_actions sub.id w.backend) w in
    process_subscriptions env event subs (if matches env event sub then acted else w)

-- All actions for one event, and then the cursor.
unfoldable pub process_event : Env → List Subscription → Event → Worker → Worker
process_event env subs event w =
    let acted = process_subscriptions env event subs w in
    record acted { backend = advance_cursor env.cursor_name event.id acted.backend }

-- `processed` events are done; the stop request is tested before each event.
unfoldable pub process_events :
    Env → List Subscription → (processed : ℕ) → List Event → Worker → ℕ × Worker
process_events env subs processed [] w = (processed, w)
process_events env subs processed (event ∷ events) w =
    let rest = process_events env subs (processed + 1) events (process_event env subs event w) in
    if env.is_stopped processed then (processed, w) else rest

-- The events that a poll finds.
abbrev pub polled : Env → Worker → List Event
polled env w =
    poll_events_since (get_cursor_position env.cursor_name w.backend) env.batch_size w.backend

-- Without events, the subscriptions are not loaded.
unfoldable pub poll_and_process : Env → Worker → ℕ × Worker
poll_and_process env w =
    process_events env (list_subscriptions true none w.backend) 0 (polled env w) w
