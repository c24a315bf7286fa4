-- ===== src/Trace/Reader.antt =====
-- `StorageReader` of trace/src/orxtra/trace/_memory_backend.py: tasks, attempts, iterations,
-- transcripts, runs and the inbox. Here are the queries that show rows, and in the children those of
-- what was learnt and of the event log.
pub mod Knowledge
pub mod History
pub mod Attempts
pub mod Replay
use orxtra.Prelude.{
  ℕ, zero, suc, ◌+◌, String, Bool, true, false, not, ◌&&◌, Option, none, some, List, [], ◌∷◌, ◌++◌,
  map, reverse, ◌==◌, nat_eq, string_eq, ltb, leb, filter, find, take, count, matches_option,
  if◌then◌else◌,
}
use orxtra.Prelude.Json.{Json}
use orxtra.Prelude.Dict.{Dict, get, values}
use orxtra.Prelude.Sorting.{sort_by}
use orxtra.Trace.Transitions.{TaskStatus, RunStatus}
use orxtra.Trace.Rows.{
  Uuid, Time, Decimal, Run, Task, TaskAttempt, Iteration, Transcript, NotepadEntry, InboxItem,
  InboxStatus, Decision, Constraint, Assumption, WorkflowStatus,
}
use orxtra.Trace.Store.{Store}

pub record TaskSummary : Type 0 where
  pub id : Uuid
  pub name : String
  pub status : TaskStatus
  pub task_type : String
  pub parent_task_id : Option Uuid
  pub attempt_count : ℕ

pub record RunSummary : Type 0 where
  pub id : Uuid
  pub intent : String
  pub status : RunStatus
  pub created_at : Time
  pub finished_at : Option Time
  pub created_by : Uuid

pub record RunReport : Type 0 where
  pub run : Run
  pub tasks : List TaskSummary
  pub decisions : List Decision
  pub constraints : List Constraint
  pub assumptions : List Assumption

-- The columns of a transcript that the readers show.
pub record TranscriptTurn : Type 0 where
  pub turn : ℕ
  pub role : String
  pub content : String
  pub tool_calls : Option Json
  pub tokens : Option Json
  pub created_at : Time

pub record NotepadView : Type 0 where
  pub run_id : Uuid
  pub task_name : String
  pub agent_name : String
  pub entry_type : String
  pub text : String
  pub created_at : Time

abbrev pub is_attempt_of : Uuid → TaskAttempt → Bool
is_attempt_of task_id a = a.task_id == task_id

unfoldable pub task_summary : Store → Task → TaskSummary
task_summary s task = record {
  id = task.id;
  name = task.name;
  status = task.status;
  task_type = task.task_type;
  parent_task_id = task.parent_task_id;
  attempt_count = count (is_attempt_of task.id) (values s.task_attempts);
}

unfoldable pub list_tasks : (run_id : Uuid) → Store → List TaskSummary
unfolding task_summary
list_tasks run_id s =
    map (task_summary s) (filter (λ (t : Task). t.run_id == run_id) (values s.tasks))

unfoldable pub read_task_attempt : (task_id : Uuid) (attempt : ℕ) → Store → Option TaskAttempt
read_task_attempt task_id attempt s =
    find (λ (a : TaskAttempt). is_attempt_of task_id a && a.attempt == attempt)
      (values s.task_attempts)

-- `max(xs, key=attempt)`: the first of those with the largest number; `best` is the first element.
unfoldable pub max_attempt : (best : TaskAttempt) → List TaskAttempt → TaskAttempt
max_attempt best [] = best
max_attempt best (a ∷ rest) = max_attempt (if ltb best.attempt a.attempt then a else best) rest

-- `if not matching: return None`, and else the best.
unfoldable pub best_attempt : (matching : List TaskAttempt) → Option TaskAttempt
unfolding max_attempt
best_attempt [] = none
best_attempt (a ∷ rest) = some (max_attempt a rest)

unfoldable pub read_latest_attempt : (task_id : Uuid) → Store → Option TaskAttempt
unfolding best_attempt
read_latest_attempt task_id s =
    best_attempt (filter (is_attempt_of task_id) (values s.task_attempts))

unfoldable pub read_task_attempts : (task_id : Uuid) → Store → List TaskAttempt
unfolding sort_by
read_task_attempts task_id s =
    sort_by (λ (a : TaskAttempt). a.attempt)
      (filter (is_attempt_of task_id) (values s.task_attempts))

unfoldable pub list_iterations : (task_id : Uuid) → Store → List Iteration
unfolding sort_by
list_iterations task_id s =
    sort_by (λ (it : Iteration). it.iteration_index)
      (filter (λ (it : Iteration). it.task_id == task_id) (values s.iterations))

abbrev transcript_turn : Transcript → TranscriptTurn
transcript_turn t = record {
  turn = t.turn;
  role = t.role;
  content = t.content;
  tool_calls = t.tool_calls;
  tokens = t.tokens;
  created_at = t.created_at;
}

unfoldable pub read_transcript : (session_id : Uuid) → Store → List TranscriptTurn
read_transcript session_id s =
    map transcript_turn (filter (λ (t : Transcript). t.session_id == session_id) s.transcripts)

-- The counts of the turns that have some.
unfoldable pub read_session_token_counts : (session_id : Uuid) → List Transcript → List Json
read_session_token_counts session_id [] = []
read_session_token_counts session_id (t ∷ ts) =
    let rest = read_session_token_counts session_id ts in
    elim t.tokens [
      | none ↦ rest
      | some tokens ↦ if t.session_id == session_id then tokens ∷ rest else rest
    ]

unfoldable pub read_session_turn_count : (session_id : Uuid) → Store → ℕ
read_session_turn_count session_id s =
    count (λ (t : Transcript). t.session_id == session_id) s.transcripts

unfoldable pub read_run_report : (run_id : Uuid) → Store → Option RunReport
unfolding list_tasks
read_run_report run_id s = elim (get s.runs run_id) [
  | none ↦ none
  | some run ↦ some (record {
    run = run;
    tasks = list_tasks run_id s;
    decisions = filter (λ (d : Decision). d.run_id == run_id) s.decisions;
    constraints = filter (λ (c : Constraint). c.run_id == run_id) s.constraints;
    assumptions = filter (λ (a : Assumption). a.run_id == run_id) s.assumptions;
  })
]

abbrev run_summary : Run → RunSummary
run_summary r = record {
  id = r.id;
  intent = r.intent;
  status = r.status;
  created_at = r.created_at;
  finished_at = r.finished_at;
  created_by = r.created_by;
}

-- The newest first.
unfoldable pub list_runs : Store → List RunSummary
list_runs s = map run_summary (reverse (values s.runs))

unfoldable pub read_run_config : (run_id : Uuid) → Store → Option Json
read_run_config run_id s = elim (get s.runs run_id) [
  | none ↦ none
  | some run ↦ some run.config_snapshot
]

abbrev pub same_status : InboxStatus → InboxStatus → Bool
same_status InboxStatus.pending InboxStatus.pending = true
same_status InboxStatus.answered InboxStatus.answered = true
same_status InboxStatus.skipped InboxStatus.skipped = true
same_status InboxStatus.rejected InboxStatus.rejected = true
same_status InboxStatus.expired InboxStatus.expired = true
same_status _ _ = false

unfoldable pub read_inbox : (run_id : Uuid) (status : Option InboxStatus) → Store → List InboxItem
unfolding sort_by
read_inbox run_id status s =
    sort_by (λ (i : InboxItem). i.created_at)
      (filter
        (λ (i : InboxItem). i.run_id == run_id && matches_option (same_status i.status) status)
        (values s.inbox_items))

unfoldable pub read_inbox_item : (item_id : Uuid) → Store → Option InboxItem
read_inbox_item item_id s = get s.inbox_items item_id

abbrev notepad_view : NotepadEntry → NotepadView
notepad_view e = record {
  run_id = e.run_id;
  task_name = e.task_name;
  agent_name = e.agent_name;
  entry_type = e.entry_type;
  text = e.text;
  created_at = e.created_at;
}

unfoldable pub read_notepad : (run_id : Uuid) → Store → List NotepadView
read_notepad run_id s =
    map notepad_view (filter (λ (e : NotepadEntry). e.run_id == run_id) s.notepad_entries)

unfoldable pub read_workflow_status : (workflow_id : Uuid) → Store → Option WorkflowStatus
read_workflow_status workflow_id s = get s.workflow_status workflow_id
