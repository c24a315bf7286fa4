-- ===== src/Samples/Delivery.antt =====
-- Applications of the theorems on the dispatch backend and worker
-- (dispatch/src/orxtra/dispatch).
use orxtra.Prelude.{
  ◌≡◌, ◌↔◌, ◌+◌, refl, ℕ, String, List, none, some, false, true, [], ◌∷◌, All, any, ◌==◌, ◌≤◌,
  length, contains, nat_eq, string_eq, arith,
}
use orxtra.Prelude.Ids.{Uuid}
use orxtra.Prelude.Json.{Json}
use orxtra.Dispatch.Backend.{
  FilterPredicate, Subscription, SubscriptionAction, AccumulatorEntry, Event, Backend,
  empty_backend, claim_batch,
}
use orxtra.Dispatch.Matching.{match_subscription, match_subscription_lem, Axis, IsAmong}
use orxtra.Dispatch.Batches.{Call, buffers, claims, confirms, perform_all, claim_batch-exclusive}
use orxtra.Dispatch.Worker.{Env, Worker, poll_and_process, polled}
use orxtra.Dispatch.Worker.Once.{AtMostOnce, poll_and_process-AtMostOnce}
use orxtra.Prelude.Dict.{get, has}
use orxtra.Dispatch.Worker.Buffered.{Sound}
use orxtra.Dispatch.Worker.Done.{AllServed, poll_and_process-Served}

abbrev by_type : FilterPredicate
by_type = record {
  event_types = some ("task_transition" ∷ []);
  sources = some ("ci" ∷ []);
  principal_id = none;
  data_predicates = none;
}

abbrev resolve : List String → List Uuid
resolve slugs = 9 ∷ []

match_subscription_lem_example :
    (match_subscription "task_transition" (some 9) by_type resolve ≡ true) ↔ (
      Axis by_type.event_types (λ types. contains types "task_transition" ≡ true)
      × Axis by_type.principal_id (λ wanted. some 9 ≡ some wanted)
      × Axis by_type.sources (λ slugs. IsAmong (some 9) (resolve slugs)))
match_subscription_lem_example = match_subscription_lem "task_transition" (some 9) by_type resolve

abbrev event : ℕ → Event
event id = record { id = id; event_type = "task_transition"; principal_id = some 9; body = none }

abbrev entry : ℕ → AccumulatorEntry
entry id = record { id = id; subscription_action_id = 4; event_id = 1; created_at = id }

abbrev subscription : Subscription
subscription = record {
  id = 3;
  predicate = by_type;
  enabled = true;
  storage = "db";
  principal_id = 1;
  created_at = 0;
}

abbrev immediate_action : SubscriptionAction
immediate_action = record {
  id = 5;
  subscription_id = 3;
  position = 0;
  action = Json.null;
  accumulator_config = none;
  created_at = 0;
}

-- The action that gathers the entries, three at a time.
abbrev gathering_action : SubscriptionAction
gathering_action = record immediate_action {
  id = 4;
  position = 1;
  accumulator_config = some (record { threshold = 3; flush_interval_s = 0 });
}

abbrev backend : Backend
backend = record empty_backend {
  subscriptions = (3, subscription) ∷ [];
  actions = (5, immediate_action) ∷ (4, gathering_action) ∷ [];
  accumulator = (21, entry 21) ∷ (22, entry 22) ∷ [];
  events = event 1 ∷ event 2 ∷ event 3 ∷ [];
}

-- Another entry is buffered, the next oldest one is claimed, and it is confirmed.
abbrev meanwhile : List Call
meanwhile = buffers (entry 23) ∷ claims 4 1 ∷ confirms (22 ∷ []) ∷ []

claim_batch-exclusive_example :
    (any
        (λ (e : AccumulatorEntry). e.id == 21)
        (claim_batch 4 9 (perform_all meanwhile (claim_batch 4 1 backend).1)).0
      ≡ false)
    × (length (claim_batch 4 1 backend).0 ≤ 1)
    × All (λ (e : AccumulatorEntry). e.subscription_action_id ≡ 4) (claim_batch 4 1 backend).0
unfolding claim_batch
claim_batch-exclusive_example = claim_batch-exclusive 4 4 1 9 backend 21 meanwhile refl refl

abbrev env : Env
env = record {
  succeeds = λ before call. false;
  resolve_source_principals = resolve;
  uuid7 = λ n. 100 + n;
  now = λ n. n;
  is_stopped = λ n. false;
  cursor_name = "worker";
  batch_size = 100;
}

abbrev started : Worker
started = record { backend = backend; executions = []; scheduled = []; buffered = 0 }

started-AtMostOnce : AtMostOnce started
started-AtMostOnce event_id action_id = omega arith

poll_and_process-AtMostOnce_example : AtMostOnce (poll_and_process env started).1
poll_and_process-AtMostOnce_example = poll_and_process-AtMostOnce env started started-AtMostOnce

-- The ids above the ones that the accumulator holds are drawn.
started-Sound : Sound env started.backend.accumulator started.buffered
unfolding get has
started-Sound = record {
  unique = (refl, (refl, tt));
  keyed = (refl, (refl, tt));
  unused = λ n le. ground arith;
}

poll_and_process-Served_example :
    ((poll_and_process env started).0 ≡ length (polled env started))
    × All (AllServed env started (poll_and_process env started).1) (polled env started)
poll_and_process-Served_example =
    poll_and_process-Served env started (λ m n e. omega arith) started-Sound (λ m. refl)
