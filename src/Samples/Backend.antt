-- ===== src/Samples/Backend.antt =====
-- Applications of the theorems on sequences of calls of the trace backend
-- (trace/src/orxtra/trace/_memory_backend.py).
use orxtra.Prelude.{◌≡◌, refl, none, some, List, [], ◌∷◌, false, nat_eq, string_eq}
use orxtra.Prelude.Json.{empty_object}
use orxtra.Prelude.Dict.{get, put, has}
use orxtra.Trace.Transitions.{TaskStatus, RunStatus, validate_task_transition}
use orxtra.Trace.Rows.{Run, Task, InboxItem, InboxStatus}
use orxtra.Trace.Store.{Store, empty_store}
use orxtra.Trace.Recovery.{reclaim_loop}
use orxtra.Trace.Events.{write_event}
use orxtra.Trace.Ops.{Op, step, steps}
use orxtra.Trace.Ops.Finality.{steps-keep_ended_runs}
use orxtra.Trace.Ops.Replay.{replay}
use orxtra.Trace.Ops.Log.{replay-eq-status, AllAdmissible}
use orxtra.Trace.Ops.Once.{ids_with, to_list}
use orxtra.Trace.Ops.Retry.{ids_with-eq-index, write_event-retry}
use orxtra.Trace.Ops.Settled.{AllNewItems, steps-keep_settled_items}

abbrev done_run : Run
done_run = record {
  id = 7;
  intent = "ship";
  config_snapshot = empty_object;
  autonomy_level = "full";
  created_by = 1;
  status = RunStatus.completed;
  created_at = 10;
  finished_at = some 20;
  coherence_summary = none;
  total_input_tokens = 0;
  total_output_tokens = 0;
  total_reasoning_tokens = 0;
  total_cache_read_tokens = 0;
  total_cache_write_tokens = 0;
  total_cost_usd = 0;
}

abbrev one_run : Store
one_run = record empty_store { runs = (7, done_run) ∷ [] }

abbrev run_calls : List Op
run_calls =
    Op.transition_run 50 30 30 7 RunStatus.running none 1
    ∷ Op.write_coherence_summary 7 "all fine"
    ∷ Op.clean_orphaned (λ n. 60) (λ n. 40) (λ n. 40)
    ∷ []

found_run : get one_run.runs 7 ≡ some done_run
unfolding get
found_run = refl

steps-keep_ended_runs_example :
    (run' : Run) × (get (steps run_calls one_run).runs 7 ≡ some run')
    × (run'.status ≡ RunStatus.completed)
    × (run'.finished_at ≡ some 20)
steps-keep_ended_runs_example = steps-keep_ended_runs run_calls one_run 7 done_run found_run refl

abbrev task_calls : List Op
task_calls =
    Op.create_task 5 1 7 none "build" "agent" none
    ∷ Op.transition_task 21 2 5 TaskStatus.prechecking none 1
    ∷ Op.reclaim_interrupted (λ n. 22) (λ n. 3)
    ∷ []

admissible_calls : AllAdmissible task_calls empty_store
unfolding has
admissible_calls = ((refl, refl), (tt, (tt, tt)))

abbrev cancelled_task : Task
cancelled_task = record {
  id = 5;
  run_id = 7;
  parent_task_id = none;
  name = "build";
  task_type = "agent";
  config = empty_object;
  status = TaskStatus.cancelled;
  created_at = 1;
}

found_task : get (steps task_calls empty_store).tasks 5 ≡ some cancelled_task
unfolding step steps get put reclaim_loop validate_task_transition
found_task = refl

replay-eq-status_example :
    replay 5 TaskStatus.created (steps task_calls empty_store).events ≡ TaskStatus.cancelled
replay-eq-status_example = replay-eq-status task_calls 5 cancelled_task admissible_calls found_task

abbrev event_calls : List Op
event_calls =
    Op.write_event 31 1 none "note" empty_object none 1 (some "k")
    ∷ Op.write_event 32 2 none "note" empty_object none 1 (some "k")
    ∷ []

ids_with-eq-index_example :
    ids_with "k" (steps event_calls empty_store).events
    ≡ to_list (get (steps event_calls empty_store).idempotency_index "k")
ids_with-eq-index_example = ids_with-eq-index event_calls "k"

write_event-retry_example :
    write_event 41 9 none "note" empty_object none 1
      (some "k")
      (steps task_calls (write_event 40 8 none "note" empty_object none 1 (some "k") empty_store).1)
    ≡ (
      ((write_event 40 8 none "note" empty_object none 1 (some "k") empty_store).0.0, false),
      steps task_calls (write_event 40 8 none "note" empty_object none 1 (some "k") empty_store).1,
    )
write_event-retry_example =
    write_event-retry 40 41 8 9 none none "note" "note" empty_object empty_object none none 1 1 "k"
      task_calls empty_store

abbrev answered_item : InboxItem
answered_item = record {
  id = 3;
  run_id = 7;
  status = InboxStatus.answered;
  decision_type = "choice";
  question = "which?";
  options = [];
  assumed_option = none;
  work_proceeding = none;
  contradiction_impact = none;
  tags = [];
  deadline = some 5;
  answer = some "left";
  answer_event = none;
  rejection_reason = none;
  answered_at = some 4;
  resolved_by = some 1;
  created_at = 1;
}

abbrev one_item : Store
one_item = record empty_store { inbox_items = (3, answered_item) ∷ [] }

abbrev inbox_calls : List Op
inbox_calls =
    Op.skip_inbox_item 3 2
    ∷ Op.create_inbox_item 4 6 7 "choice" "why?" [] none none none none none none
    ∷ Op.expire_due_inbox_items 9
    ∷ []

found_item : get one_item.inbox_items 3 ≡ some answered_item
unfolding get
found_item = refl

new_items : AllNewItems inbox_calls one_item
unfolding step has get
new_items = (tt, (refl, (tt, tt)))

steps-keep_settled_items_example :
    get (steps inbox_calls one_item).inbox_items 3 ≡ some answered_item
steps-keep_settled_items_example =
    steps-keep_settled_items inbox_calls one_item 3 answered_item new_items found_item refl
