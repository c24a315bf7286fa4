-- ===== src/Trace/Store.antt =====
-- The state of `InMemoryBackend` (trace/src/orxtra/trace/_memory_backend.py).
use orxtra.Prelude.{ℕ, String, Bool, List, [], Result}
use orxtra.Prelude.Dict.{Dict}
use orxtra.Trace.Rows.{
  Uuid, Time, Run, Task, TaskAttempt, Iteration, Event, Transcript, NotepadEntry, InboxItem,
  Decision, Constraint, Assumption, Lesson, ContextDiff, WorkflowStatus,
}

-- A callback is a handle: what it does when it is called is outside of the backend.
abbrev pub Callback : Type 0
Callback = ℕ

pub record Store : Type 0 where
  pub runs : Dict Uuid Run
  pub tasks : Dict Uuid Task
  pub task_attempts : Dict Uuid TaskAttempt
  pub events : List Event
  pub transcripts : List Transcript
  pub notepad_entries : List NotepadEntry
  pub inbox_items : Dict Uuid InboxItem
  pub decisions : List Decision
  pub constraints : List Constraint
  pub assumptions : List Assumption
  pub lessons : List Lesson
  pub context_diffs : List ContextDiff
  pub workflow_status : Dict Uuid WorkflowStatus
  pub iterations : Dict Uuid Iteration
  pub run_locks : Dict Uuid Bool
  pub heartbeats : Dict Uuid Time
  pub control_callbacks : Dict Uuid Callback
  pub knowledge_hashes : Dict Uuid (Dict String String)
  pub idempotency_index : Dict String Uuid

-- `InMemoryBackend()`
abbrev pub empty_store : Store
empty_store = record {
  runs = [];
  tasks = [];
  task_attempts = [];
  events = [];
  transcripts = [];
  notepad_entries = [];
  inbox_items = [];
  decisions = [];
  constraints = [];
  assumptions = [];
  lessons = [];
  context_diffs = [];
  workflow_status = [];
  iterations = [];
  run_locks = [];
  heartbeats = [];
  control_callbacks = [];
  knowledge_hashes = [];
  idempotency_index = [];
}

-- A method that may raise returns its outcome, and the store as it left it.
abbrev pub Method : Type 0 → Type 0
Method A = Store → Result A × Store

-- `_INMEMORY_SYSTEM_PRINCIPAL_ID`
abbrev pub inmemory_system_principal_id : Uuid
inmemory_system_principal_id = 0x11111111111111111111111111111111
