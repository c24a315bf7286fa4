-- ===== src/Trace/Runs.antt =====
-- `InMemoryBackend`: the methods of RunStorage and RunControlStorage. A method that calls control
-- callbacks also returns the calls that it made, in order.
pub mod Outcomes
use orxtra.Prelude.{
  ℕ, String, Bool, true, false, Option, none, some, List, [], ◌∷◌, ◌++◌, ◌==◌, nat_eq, contains,
  if◌then◌else◌, Result, ok, err, value_error,
}
use orxtra.Prelude.Json.{Json}
use orxtra.Prelude.Dict.{Dict, get, has, put, pop}
use orxtra.Trace.Transitions.{
  RunStatus, paused, aborted, failed, run_status_eq, validate_run_transition,
}
use orxtra.Trace.Rows.{Uuid, Time, Run, Event, run_change}
use orxtra.Trace.Store.{Store, Method, Callback}

abbrev pub new_run :
    (now : Time) (intent : String) (config : Json) (autonomy_level : String) (run_id : Uuid)
    (created_by : Uuid)
    → Run
new_run now intent config autonomy_level run_id created_by = record {
  id = run_id;
  intent = intent;
  config_snapshot = config;
  autonomy_level = autonomy_level;
  created_by = created_by;
  status = RunStatus.created;
  created_at = now;
  finished_at = none;
  coherence_summary = none;
  total_input_tokens = 0;
  total_output_tokens = 0;
  total_reasoning_tokens = 0;
  total_cache_read_tokens = 0;
  total_cache_write_tokens = 0;
  total_cost_usd = 0;
}

unfoldable pub create_run :
    (now : Time) (intent : String) (config : Json) (autonomy_level : String) (run_id : Uuid)
    (created_by : Uuid)
    → Method Uuid
create_run now intent config autonomy_level run_id created_by s =
    if has s.runs run_id then (err value_error, s) else (
      ok run_id,
      record s {
        runs = put s.runs run_id (new_run now intent config autonomy_level run_id created_by);
      },
    )

-- A call of a control callback with its two arguments.
pub record ControlCall : Type 0 where
  pub callback : Callback
  pub run_id : Uuid
  pub status : RunStatus

abbrev pub call_if_subscribed : Option Callback → Uuid → RunStatus → List ControlCall
call_if_subscribed none run_id status = []
call_if_subscribed (some callback) run_id status =
    record { callback = callback; run_id = run_id; status = status } ∷ []

abbrev pub run_event :
    (fresh : Uuid) (now : Time) (run : Run) (run_id : Uuid) (new_status : RunStatus)
    (reason : Option String) (principal_id : Uuid)
    → Event
run_event fresh now run run_id new_status reason principal_id = record {
  id = fresh;
  run_id = some run_id;
  task_id = none;
  principal_id = principal_id;
  event_type = "run_transition";
  body = run_change run.status new_status reason;
  idempotency_key = none;
  created_at = now;
}

abbrev pub apply_transition :
    (fresh : Uuid) (finished now : Time) (run : Run) (run_id : Uuid) (new_status : RunStatus)
    (reason : Option String) (principal_id : Uuid)
    → Result (Unit {0})
    → Method (List ControlCall)
apply_transition fresh finished now run run_id new_status reason principal_id (err e) s = (err e, s)
apply_transition fresh finished now run run_id new_status reason principal_id (ok _) s = (
  ok (call_if_subscribed (get s.control_callbacks run_id) run_id new_status),
  record s {
    runs = put s.runs run_id (record run {
      status = new_status;
      finished_at =
          if contains (RunStatus.completed ∷ failed ∷ aborted ∷ []) new_status
          then some finished
          else run.finished_at;
    });
    events = s.events ++ run_event fresh now run run_id new_status reason principal_id ∷ [];
  },
)

-- `finished` and `now` are the values of the two calls of `_now()`.
unfoldable pub transition_run :
    (fresh : Uuid) (finished now : Time) (run_id : Uuid) (new_status : RunStatus)
    (reason : Option String) (principal_id : Uuid)
    → Method (List ControlCall)
transition_run fresh finished now run_id new_status reason principal_id s =
    elim (get s.runs run_id) [
      | none ↦ (err value_error, s)
      | some run ↦
          apply_transition fresh finished now run run_id new_status reason principal_id
            (validate_run_transition run.status new_status) s
    ]

unfoldable pub write_coherence_summary : (run_id : Uuid) (summary : String) → Store → Store
write_coherence_summary run_id summary s = elim (get s.runs run_id) [
  | none ↦ s
  | some run ↦ record s {
    runs = put s.runs run_id (record run { coherence_summary = some summary });
  }
]

-- A late subscriber to a run that is paused or aborted is told at once.
abbrev late_call : Callback → Uuid → Option Run → List ControlCall
late_call callback run_id none = []
late_call callback run_id (some run) =
    if contains (paused ∷ aborted ∷ []) run.status
    then record { callback = callback; run_id = run_id; status = run.status } ∷ []
    else []

unfoldable pub subscribe_run_control :
    (run_id : Uuid) (callback : Callback) → Store → List ControlCall × Store
subscribe_run_control run_id callback s =
    let s' = record s { control_callbacks = put s.control_callbacks run_id callback } in
    (late_call callback run_id (get s.runs run_id), s')

unfoldable pub unsubscribe_run_control : (run_id : Uuid) → Store → Store
unsubscribe_run_control run_id s = record s { control_callbacks = pop s.control_callbacks run_id }
