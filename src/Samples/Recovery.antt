-- ===== src/Samples/Recovery.antt =====
-- Applications of the theorems on sweeps and crash recovery
-- (trace/src/orxtra/trace/_memory_backend.py).
use orxtra.Prelude.{length, ◌≡◌, refl, ◌+◌, ℕ, none, some, List, [], ◌∷◌, ◌++◌, count, nat_eq}
use orxtra.Prelude.Json.{empty_object}
use orxtra.Prelude.Dict.{get, values}
use orxtra.Trace.Transitions.{TaskStatus, RunStatus}
use orxtra.Trace.Rows.{Uuid, Run, Task, Event, InboxItem, InboxStatus}
use orxtra.Trace.Store.{Store, empty_store}
use orxtra.Trace.Inbox.{is_pending, expire_due_inbox_items}
use orxtra.Trace.Inbox.Sweep.{Expiry, expire_due_inbox_items_lem}
use orxtra.Trace.Recovery.{reclaim_interrupted}
use orxtra.Trace.Recovery.Idempotence.{Recovered, Logged, reclaim_interrupted_settles}

abbrev due_item : InboxItem
due_item = record {
  id = 3;
  run_id = 7;
  status = InboxStatus.pending;
  decision_type = "choice";
  question = "which?";
  options = [];
  assumed_option = none;
  work_proceeding = none;
  contradiction_impact = none;
  tags = [];
  deadline = some 5;
  answer = none;
  answer_event = none;
  rejection_reason = none;
  answered_at = none;
  resolved_by = none;
  created_at = 1;
}

abbrev active_task : Task
active_task = record {
  id = 5;
  run_id = 7;
  parent_task_id = none;
  name = "build";
  task_type = "agent";
  config = empty_object;
  status = TaskStatus.active;
  created_at = 1;
}

abbrev running_run : Run
running_run = record {
  id = 7;
  intent = "ship";
  config_snapshot = empty_object;
  autonomy_level = "full";
  created_by = 1;
  status = RunStatus.running;
  created_at = 10;
  finished_at = none;
  coherence_summary = none;
  total_input_tokens = 0;
  total_output_tokens = 0;
  total_reasoning_tokens = 0;
  total_cache_read_tokens = 0;
  total_cache_write_tokens = 0;
  total_cost_usd = 0;
}

abbrev crashed : Store
crashed = record empty_store {
  runs = (7, running_run) ∷ [];
  tasks = (5, active_task) ∷ [];
  inbox_items = (3, due_item) ∷ [];
}

expire_due_inbox_items_lem_example :
    ((swept : InboxItem) × (get (expire_due_inbox_items 9 crashed).1.inbox_items 3 ≡ some swept)
      × Expiry 9 due_item swept)
    × (count is_pending (values crashed.inbox_items)
        ≡ (expire_due_inbox_items 9 crashed).0
          + count is_pending (values (expire_due_inbox_items 9 crashed).1.inbox_items))
    × (expire_due_inbox_items 9 (expire_due_inbox_items 9 crashed).1
        ≡ (0, (expire_due_inbox_items 9 crashed).1))
unfolding get
expire_due_inbox_items_lem_example = expire_due_inbox_items_lem 9 crashed 3 due_item refl

abbrev ids : ℕ → Uuid
ids n = 60 + n

reclaim_interrupted_settles_example :
    ((after : Task) × (get (reclaim_interrupted ids ids crashed).1.tasks 5 ≡ some after)
      × Recovered active_task after)
    × ((appended : List Event) × ((reclaim_interrupted ids ids crashed).1.events
          ≡ crashed.events ++ appended)
        × Logged (values crashed.tasks) appended
        × ((reclaim_interrupted ids ids crashed).0 ≡ length appended))
    × (reclaim_interrupted ids ids (reclaim_interrupted ids ids crashed).1
        ≡ (0, (reclaim_interrupted ids ids crashed).1))
unfolding get
reclaim_interrupted_settles_example =
    reclaim_interrupted_settles ids ids ids ids crashed 5 active_task refl
