-- ===== src/Trace/Tasks.antt =====
-- `InMemoryBackend`: the methods of TaskStorage. `fresh` is the value of `uuid6.uuid7()` and `now`
-- that of `_now()` in the call.
pub mod Outcomes
use orxtra.Prelude.{
  ℕ, String, Option, none, some, List, [], ◌∷◌, ◌++◌, nat_eq, Result, ok, err, value_error,
  key_error,
}
use orxtra.Prelude.Json.{Json, or_empty}
use orxtra.Prelude.Dict.{get, put}
use orxtra.Trace.Transitions.{TaskStatus, validate_task_transition}
use orxtra.Trace.Rows.{
  Uuid, Time, Decimal, Seconds, Task, TaskAttempt, Iteration, WorkStatus, Event, task_change,
}
use orxtra.Trace.Store.{Store, Method}

unfoldable pub create_task :
    (fresh : Uuid) (now : Time) (run_id : Uuid) (parent_task_id : Option Uuid) (name : String)
    (task_type : String) (config : Option Json)
    → Store
    → Uuid × Store
create_task fresh now run_id parent_task_id name task_type config s = (
  fresh,
  record s {
    tasks = put s.tasks fresh (record {
      id = fresh;
      run_id = run_id;
      parent_task_id = parent_task_id;
      name = name;
      task_type = task_type;
      config = or_empty config;
      status = TaskStatus.created;
      created_at = now;
    });
  },
)

-- The event that a transition appends.
abbrev pub task_event :
    (fresh : Uuid) (now : Time) (task : Task) (task_id : Uuid) (new_status : TaskStatus)
    (reason : Option String) (principal_id : Uuid)
    → Event
task_event fresh now task task_id new_status reason principal_id = record {
  id = fresh;
  run_id = some task.run_id;
  task_id = some task_id;
  principal_id = principal_id;
  event_type = "task_transition";
  body = task_change task_id task.status new_status reason;
  idempotency_key = none;
  created_at = now;
}

-- What `transition_task` does with the task that it found and the validator's verdict.
abbrev pub apply_transition :
    (fresh : Uuid) (now : Time) (task : Task) (task_id : Uuid) (new_status : TaskStatus)
    (reason : Option String) (principal_id : Uuid)
    → Result (Unit {0})
    → Method (Unit {0})
apply_transition fresh now task task_id new_status reason principal_id (err e) s = (err e, s)
apply_transition fresh now task task_id new_status reason principal_id (ok _) s = (
  ok tt,
  record s {
    tasks = put s.tasks task_id (record task { status = new_status });
    events = s.events ++ task_event fresh now task task_id new_status reason principal_id ∷ [];
  },
)

unfoldable pub transition_task :
    (fresh : Uuid) (now : Time) (task_id : Uuid) (new_status : TaskStatus) (reason : Option String)
    (principal_id : Uuid)
    → Method (Unit {0})
transition_task fresh now task_id new_status reason principal_id s = elim (get s.tasks task_id) [
  | none ↦ (err value_error, s)
  | some task ↦
      apply_transition fresh now task task_id new_status reason principal_id
        (validate_task_transition task.status new_status) s
]

unfoldable pub create_task_attempt :
    (fresh : Uuid) (task_id : Uuid) (attempt : ℕ) → Store → Uuid × Store
create_task_attempt fresh task_id attempt s = (
  fresh,
  record s {
    task_attempts = put s.task_attempts fresh (record {
      id = fresh;
      task_id = task_id;
      attempt = attempt;
      status = WorkStatus.running;
      agent_output = none;
      structured_output = none;
      check_result = none;
      check_verdict = none;
      session_id = none;
      input_tokens = 0;
      output_tokens = 0;
      reasoning_tokens = 0;
      cache_read_tokens = 0;
      cache_write_tokens = 0;
      cost_usd = 0;
      duration_seconds = none;
    });
  },
)

-- The token counts, the cost and the duration of an attempt, as both closing methods take them.
pub record Usage : Type 0 where
  pub session_id : Option Uuid
  pub input_tokens : ℕ
  pub output_tokens : ℕ
  pub reasoning_tokens : ℕ
  pub cache_read_tokens : ℕ
  pub cache_write_tokens : ℕ
  pub cost_usd : Decimal
  pub duration_seconds : Seconds

-- `self._task_attempts[attempt_id]` raises KeyError on an unknown attempt.
unfoldable pub complete_task_attempt :
    (attempt_id : Uuid) (agent_output : String) (structured_output check_result : Option Json)
    (check_verdict : Option String) (usage : Usage)
    → Method (Unit {0})
complete_task_attempt attempt_id agent_output structured_output check_result check_verdict usage s =
    elim (get s.task_attempts attempt_id) [
      | none ↦ (err key_error, s)
      | some att ↦ (
        ok tt,
        record s {
          task_attempts = put s.task_attempts attempt_id (record att {
            status = WorkStatus.completed;
            agent_output = some agent_output;
            structured_output = structured_output;
            check_result = check_result;
            check_verdict = check_verdict;
            session_id = usage.session_id;
            input_tokens = usage.input_tokens;
            output_tokens = usage.output_tokens;
            reasoning_tokens = usage.reasoning_tokens;
            cache_read_tokens = usage.cache_read_tokens;
            cache_write_tokens = usage.cache_write_tokens;
            cost_usd = usage.cost_usd;
            duration_seconds = some usage.duration_seconds;
          });
        },
      )
    ]

unfoldable pub fail_task_attempt :
    (attempt_id : Uuid) (error : String) (usage : Usage) → Method (Unit {0})
fail_task_attempt attempt_id error usage s = elim (get s.task_attempts attempt_id) [
  | none ↦ (err key_error, s)
  | some att ↦ (
    ok tt,
    record s {
      task_attempts = put s.task_attempts attempt_id (record att {
        status = WorkStatus.failed;
        agent_output = some error;
        session_id = usage.session_id;
        input_tokens = usage.input_tokens;
        output_tokens = usage.output_tokens;
        reasoning_tokens = usage.reasoning_tokens;
        cache_read_tokens = usage.cache_read_tokens;
        cache_write_tokens = usage.cache_write_tokens;
        cost_usd = usage.cost_usd;
        duration_seconds = some usage.duration_seconds;
      });
    },
  )
]

unfoldable pub create_iteration :
    (fresh : Uuid) (now : Time) (task_id : Uuid) (index : ℕ) (item_value : Json)
    → Store
    → Uuid × Store
create_iteration fresh now task_id index item_value s = (
  fresh,
  record s {
    iterations = put s.iterations fresh (record {
      id = fresh;
      task_id = task_id;
      iteration_index = index;
      item_value = item_value;
      status = WorkStatus.running;
      output = none;
      structured_output = none;
      check_results = none;
      started_at = now;
      finished_at = none;
    });
  },
)

unfoldable pub complete_iteration :
    (now : Time) (iteration_id : Uuid) (output : Option String) (structured_output : Option Json)
    (check_results : Option (List Json))
    → Method (Unit {0})
complete_iteration now iteration_id output structured_output check_results s =
    elim (get s.iterations iteration_id) [
      | none ↦ (err key_error, s)
      | some it ↦ (
        ok tt,
        record s {
          iterations = put s.iterations iteration_id (record it {
            status = WorkStatus.completed;
            output = output;
            structured_output = structured_output;
            check_results = check_results;
            finished_at = some now;
          });
        },
      )
    ]

unfoldable pub fail_iteration :
    (now : Time) (iteration_id : Uuid) (error : String) → Method (Unit {0})
fail_iteration now iteration_id error s = elim (get s.iterations iteration_id) [
  | none ↦ (err key_error, s)
  | some it ↦ (
    ok tt,
    record s {
      iterations =
          put s.iterations iteration_id
            (record it { status = WorkStatus.failed; output = some error; finished_at = some now });
    },
  )
]
