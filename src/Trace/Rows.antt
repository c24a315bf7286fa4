-- ===== src/Trace/Rows.antt =====
-- The row dicts of trace/src/orxtra/trace/_memory_backend.py, one record for each kind of row.
-- A column that holds JSON text stands as the value that the text encodes.
pub use orxtra.Prelude.Ids.{Uuid, Time, Decimal, Seconds}
use orxtra.Prelude.{ℕ, String, Bool, Option, List}
use orxtra.Prelude.Json.{Json}
use orxtra.Trace.Transitions.{TaskStatus, RunStatus}

pub record Run : Type 0 where
  pub id : Uuid
  pub intent : String
  pub config_snapshot : Json
  pub autonomy_level : String
  pub created_by : Uuid
  pub status : RunStatus
  pub created_at : Time
  pub finished_at : Option Time
  pub coherence_summary : Option String
  pub total_input_tokens : ℕ
  pub total_output_tokens : ℕ
  pub total_reasoning_tokens : ℕ
  pub total_cache_read_tokens : ℕ
  pub total_cache_write_tokens : ℕ
  pub total_cost_usd : Decimal

pub record Task : Type 0 where
  pub id : Uuid
  pub run_id : Uuid
  pub parent_task_id : Option Uuid
  pub name : String
  pub task_type : String
  pub config : Json
  pub status : TaskStatus
  pub created_at : Time

-- The status of an attempt or an iteration.
pub data WorkStatus : Type 0 where
  running completed failed : WorkStatus

pub record TaskAttempt : Type 0 where
  pub id : Uuid
  pub task_id : Uuid
  pub attempt : ℕ
  pub status : WorkStatus
  pub agent_output : Option String
  pub structured_output : Option Json
  pub check_result : Option Json
  pub check_verdict : Option String
  pub session_id : Option Uuid
  pub input_tokens : ℕ
  pub output_tokens : ℕ
  pub reasoning_tokens : ℕ
  pub cache_read_tokens : ℕ
  pub cache_write_tokens : ℕ
  pub cost_usd : Decimal
  pub duration_seconds : Option Seconds

pub record Iteration : Type 0 where
  pub id : Uuid
  pub task_id : Uuid
  pub iteration_index : ℕ
  pub item_value : Json
  pub status : WorkStatus
  pub output : Option String
  pub structured_output : Option Json
  pub check_results : Option (List Json)
  pub started_at : Time
  pub finished_at : Option Time

-- The `data` dicts that the backend builds itself, and those that a caller hands to it.
pub data EventData : Type 0 where
  task_change :
      (task_id : Uuid) (old_status new_status : TaskStatus) (reason : Option String) → EventData
  run_change : (old_status new_status : RunStatus) (reason : Option String) → EventData
  recovery : (action : String) → EventData
  payload : Json → EventData

pub record Event : Type 0 where
  pub id : Uuid
  pub run_id : Option Uuid
  pub task_id : Option Uuid
  pub principal_id : Uuid
  pub event_type : String
  pub body : EventData
  pub idempotency_key : Option String
  pub created_at : Time

pub record Transcript : Type 0 where
  pub id : Uuid
  pub session_id : Uuid
  pub run_id : Uuid
  pub turn : ℕ
  pub role : String
  pub content : String
  pub tool_calls : Option Json
  pub tokens : Option Json
  pub created_at : Time

pub record NotepadEntry : Type 0 where
  pub id : Uuid
  pub run_id : Uuid
  pub task_name : String
  pub agent_name : String
  pub entry_type : String
  pub text : String
  pub created_at : Time

pub data InboxStatus : Type 0 where
  pending answered skipped rejected expired : InboxStatus

pub record InboxItem : Type 0 where
  pub id : Uuid
  pub run_id : Uuid
  pub status : InboxStatus
  pub decision_type : String
  pub question : String
  pub options : List Json
  pub assumed_option : Option String
  pub work_proceeding : Option String
  pub contradiction_impact : Option String
  pub tags : List String
  pub deadline : Option Time
  pub answer : Option String
  pub answer_event : Option String
  pub rejection_reason : Option String
  pub answered_at : Option Time
  pub resolved_by : Option Uuid
  pub created_at : Time

pub record Decision : Type 0 where
  pub id : Uuid
  pub run_id : Uuid
  pub decision_type : String
  pub choice : String
  pub rationale : Option String
  pub created_at : Time

pub record Constraint : Type 0 where
  pub id : Uuid
  pub run_id : Uuid
  pub text : String
  pub tier : String
  pub kind : String
  pub args : Option Json
  pub is_active : Bool
  pub created_at : Time

pub record Assumption : Type 0 where
  pub id : Uuid
  pub run_id : Uuid
  pub text : String
  pub scope : String
  pub status : String
  pub inbox_item_id : Option Uuid
  pub created_at : Time

pub record Lesson : Type 0 where
  pub id : Uuid
  pub run_id : Uuid
  pub text : String
  pub relevance_tags : List String
  pub permanent : Bool
  pub source_files : Option (List String)
  pub source_file : Option String
  pub created_at : Time

pub record ContextDiff : Type 0 where
  pub id : Uuid
  pub attempt_id : Uuid
  pub pre_refinement : String
  pub refinement_diff : String

pub record WorkflowStatus : Type 0 where
  pub workflow_id : Uuid
  pub current_step : String
  pub health : String
  pub updated_at : Time
